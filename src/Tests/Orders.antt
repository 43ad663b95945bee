-- ===== src/Tests/Orders.antt =====
-- A run of the login manager: a dispatcher connects, its message is read, and ann's login from device 9
-- that it holds is answered.
use single_terminal_login_sy.Base.{
  ◌≡◌, sym, ap, ◌∙◌, refl, inl, inr, Bool, true, false, Option, none, some, [], map, ◌==◌,
  if◌then◌else◌, arith,
}
use single_terminal_login_sy.Base.Text.{Text, codes, c_str, text_eq}
use single_terminal_login_sy.Base.Int.{narrow, ℤ, pos, to_int, to_ull}
use single_terminal_login_sy.Base.Decimal.{show_ℕ, show_ℤ, strtoul}
use single_terminal_login_sy.Exec.{Exec, done}
use single_terminal_login_sy.Mysql.Statements.{
  count_password_sql, count_active_sql, active_fd_sql, insert_login_sql, logout_sql,
}
use single_terminal_login_sy.Loginer.Devices.{Moves}
use single_terminal_login_sy.Mysql.Laws.{Plain}
use single_terminal_login_sy.Mysql.Tables.{active, count_password, count_user}
use single_terminal_login_sy.SqlApi.{push_rows, clean_result, select, get_result, insert, update}
use single_terminal_login_sy.SqlApi.Count.{select_count}
use single_terminal_login_sy.Loginer.{
  process_login, is_valid_user_name_and_pass_word, is_already_logined,
  get_already_logined_client_fd, set_logout_status_then_login, login,
}
use single_terminal_login_sy.Cjson.Laws.{lower}
use single_terminal_login_sy.Daemon.{
  Daemon, EventDataBuf, new_daemon, block, release, epoll_ctl, deal_connect_request,
  deal_read_event, deal_write_event, create_listen_sock, create_epoll_fd, message_of,
}
use single_terminal_login_sy.Daemon.Loop.{deal_event}
use single_terminal_login_sy.Daemon.System.{
  Kernel, Events, EpollData, in_events, out_events, data_fd, data_ptr,
}
use single_terminal_login_sy.Daemon.Epoll.{interest}
use single_terminal_login_sy.Daemon.Reach.{Reach, begin, event}
use single_terminal_login_sy.Manager as Manager
use single_terminal_login_sy.Manager.{
  UserLoginImpl, get_operate_type, get_response_message, deal_client_message,
}
use single_terminal_login_sy.Manager.Main.{open_sockets}
use single_terminal_login_sy.Manager.Order.{InOrder, IsRested}
use single_terminal_login_sy.Manager.Rested.{IsCalm}
use single_terminal_login_sy.Manager.Sessions.{
  IsMild, deal_client_message-Moves, manager_run-InOrder,
}
use single_terminal_login_sy.Tests.Split.{split}
use single_terminal_login_sy.Tests.Server.{server, run, sign_out_named}
use single_terminal_login_sy.Tests.Server.Meaning.{server_laws}
use single_terminal_login_sy.Tests.Data.{ann, secret, start, session_of, start-IsSound}
use single_terminal_login_sy.Tests.Json.{
  Tree, Fields, no_fields, field, text_of, find_field, find_text, print_tree, append_field,
  append_fields, rest_after, json,
}
use single_terminal_login_sy.Client.Command.{credentials_item}
use single_terminal_login_sy.Tests.Kernels.{kernel_of}
use single_terminal_login_sy.Tests.Journeys.{manager, request, library}

-- What a message is read, in 200 bytes.
abbrev asking : Kernel
asking = kernel_of (pos 2) (pos 200) (print_tree request)

abbrev credentials : Tree
credentials = credentials_item (json []) ann secret

abbrev handler : ℤ → ℤ → Text → Exec (Daemon (UserLoginImpl server)) Bool
handler = deal_client_message library (λ _. 100) asking

abbrev own : UserLoginImpl server
own = record { sql_api = session_of start }

abbrev dealt : Daemon (UserLoginImpl server) → Events → EpollData → Daemon (UserLoginImpl server)
dealt s ev d = (deal_event asking handler (pos 4) (pos 3) (ev, d) s).1

abbrev opened : Daemon (UserLoginImpl server)
opened = (open_sockets asking (new_daemon own)).1

abbrev connected : Daemon (UserLoginImpl server)
connected = dealt opened in_events (data_fd (pos 4))

abbrev told : Daemon (UserLoginImpl server)
told = dealt connected in_events (data_fd (pos 7))

abbrev served : Daemon (UserLoginImpl server)
served = dealt told out_events (data_ptr 0)

opened_lem : open_sockets asking (new_daemon own) ≡ (done (some (pos 4, pos 3)), opened)
unfolding open_sockets epoll_ctl create_listen_sock create_epoll_fd
opened_lem = refl

connected_run : Reach asking handler (pos 4) (pos 3) opened connected
unfolding open_sockets epoll_ctl create_listen_sock create_epoll_fd deal_event deal_connect_request
    interest
connected_run =
    event opened connected (pos 4) in_events in_events (data_fd (pos 4)) true begin refl refl
      (inl refl)

told_run : Reach asking handler (pos 4) (pos 3) opened told
unfolding open_sockets epoll_ctl create_listen_sock create_epoll_fd deal_event deal_connect_request
    deal_read_event interest
told_run =
    event connected told (pos 7) in_events in_events (data_fd (pos 7)) true connected_run refl refl
      (inl refl)

served_lem :
    deal_event asking handler (pos 4) (pos 3) (out_events, data_ptr 0) told ≡ (done true, served)
unfolding open_sockets epoll_ctl create_listen_sock create_epoll_fd deal_event deal_connect_request
    deal_read_event deal_write_event block release c_str deal_client_message get_operate_type
    get_response_message Manager.process_login print_tree append_field append_fields rest_after
    find_field find_text process_login is_valid_user_name_and_pass_word is_already_logined
    get_already_logined_client_fd set_logout_status_then_login login select_count select get_result
    insert update push_rows clean_result run count_password_sql count_active_sql active_fd_sql
    insert_login_sql logout_sql text_eq strtoul narrow to_int to_ull show_ℕ show_ℤ split active
    count_password sign_out_named
served_lem = refl

served_run : Reach asking handler (pos 4) (pos 3) opened served
unfolding open_sockets epoll_ctl create_listen_sock create_epoll_fd deal_event deal_connect_request
    deal_read_event interest
served_run =
    event told served (pos 7) out_events out_events (data_ptr 0) true told_run refl served_lem
      (inr refl)

-- A property of every member holds for the one that is found.
abbrev AllFields : (Tree → Type 0) → Fields → Type 0
AllFields P no_fields = Unit
AllFields P (field k t fs) = P t × AllFields P fs

some_lem : {A : Type 0} {x y : A} → some x ≡ some y → x ≡ y
some_lem e = cc

found_lem :
    {A : Type 0} (P : A → Type 0) (b : Bool) (t : A) (rest : Option A) (item : A)
    → P t
    → (rest ≡ some item → P item)
    → (if b then some t else rest) ≡ some item
    → P item
found_lem P true t rest item p other e = rw⁻¹ (some_lem e) p
found_lem P false t rest item p other e = other e

find_field_lem :
    (P : Tree → Type 0) (fs : Fields) (k : Text) (item : Tree)
    → AllFields P fs
    → find_field fs k ≡ some item
    → P item
unfolding find_field
find_field_lem P no_fields k item all e = cc
find_field_lem P (field l t fs) k item (p, all) e =
    found_lem P (text_eq (map lower l) (map lower k)) t (find_field fs k) item p
      (find_field_lem P fs k item all) e

abbrev known : Tree → Text → Option Tree
known = library.get_object_item

request_back : library.parse (c_str (print_tree request)) ≡ some request
unfolding print_tree find_text append_field append_fields rest_after text_eq show_ℤ show_ℕ c_str
request_back = refl

message_found : known request (codes "message") ≡ some credentials
unfolding find_field append_field text_eq
message_found = refl

-- The texts of a message's members.
credentials-Plain :
    (k : Text) (item : Tree) → known credentials k ≡ some item → Plain (text_of item)
unfolding append_field
credentials-Plain k item e =
    find_field_lem (λ t. Plain (text_of t)) _ k item (omega arith, (omega arith, tt)) e

module _ (root : Tree) (parsed : library.parse (c_str (print_tree request)) ≡ some root) where
  root_is : request ≡ root
  root_is = some_lem (sym request_back ∙ parsed)

  member_is :
      (k : Text) (item found : Tree)
      → known request k ≡ some found
      → known root k ≡ some item
      → found ≡ item
  member_is k item found e has = some_lem (sym e ∙ ap (λ t. known t k) root_is ∙ has)

request-IsCalm : IsCalm library (c_str (print_tree request))
request-IsCalm = record {
  plain = λ root message item k named e h has. credentials-Plain k item (
      ap (λ t. known t k) (member_is root e (codes "message") message credentials message_found h)
      ∙ has);
}

no_block : {A : Type 0} {b : EventDataBuf} → none ≡ some b → A
no_block e = cc

opened-IsMild : IsMild server_laws library (λ _. 100) asking opened
unfolding server_laws open_sockets epoll_ctl create_listen_sock create_epoll_fd block
opened-IsMild = record { room = omega arith; calm = λ p b e. no_block e }

connected-IsMild : IsMild server_laws library (λ _. 100) asking connected
unfolding server_laws open_sockets epoll_ctl create_listen_sock create_epoll_fd deal_event
    deal_connect_request block
connected-IsMild = record { room = omega arith; calm = λ p b e. no_block e }

told-IsMild : IsMild server_laws library (λ _. 100) asking told
unfolding server_laws open_sockets epoll_ctl create_listen_sock create_epoll_fd deal_event
    deal_connect_request deal_read_event block release
told-IsMild = record {
  room = omega arith;
  calm = λ p b e.
      found_lem (λ b. IsCalm library (c_str b.message)) (p == 0)
        (message_of (pos 7) (print_tree request)) none b request-IsCalm (λ e. no_block e) e;
}

start-InOrder : InOrder server_laws.same start
unfolding server_laws count_user count_password text_eq
start-InOrder = record { sound = start-IsSound; unique = λ user. ground arith; known = omega arith }

manager_run-InOrder_example : InOrder server_laws.same (server_laws.tables served.own.sql_api.mysql)
unfolding server_laws served_run told_run connected_run
manager_run-InOrder_example =
    manager_run-InOrder server_laws library (λ _. 100) asking own (pos 4) (pos 3) opened served
      opened_lem served_run (told-IsMild, (connected-IsMild, (opened-IsMild, tt))) refl
      start-InOrder

manager-IsRested : IsRested server_laws manager.own.sql_api
unfolding server_laws
manager-IsRested = record { no_rows = refl; tables_in_order = start-InOrder }

deal_client_message-Moves_example :
    Moves server_laws.same (server_laws.tables manager.own.sql_api.mysql) (
      server_laws.tables
        (handler (pos 8) (pos 0) (c_str (print_tree request)) manager).1.own.sql_api.mysql)
deal_client_message-Moves_example =
    deal_client_message-Moves server_laws library (λ _. 100) asking (pos 8) (pos 0)
      (c_str (print_tree request)) manager request-IsCalm (unfold server_laws in omega arith)
      manager-IsRested
