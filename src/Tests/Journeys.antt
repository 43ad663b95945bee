-- ===== src/Tests/Journeys.antt =====
-- The theorems on a whole login: ann, who is logged in on device 5, logs in from device 9.
use single_terminal_login_sy.Base.{◌≡◌, refl, [], ◌∷◌, List, some, none, true, arith}
use single_terminal_login_sy.Base.Text.{Text, codes, text_eq}
use single_terminal_login_sy.Base.Int.{narrow, pos, is_pos, to_int, to_ull}
use single_terminal_login_sy.Base.Decimal.{show_ℕ, show_ℤ, strtoul}
use single_terminal_login_sy.Codes.{MessageType, code_value}
use single_terminal_login_sy.Exec.{done}
use single_terminal_login_sy.Mysql.Statements.{
  count_password_sql, count_active_sql, active_fd_sql, insert_login_sql, logout_sql,
}
use single_terminal_login_sy.Mysql.Tables.{active, count_password}
use single_terminal_login_sy.SqlApi.{
  SqlApi, push_rows, clean_result, select, get_result, insert, update,
}
use single_terminal_login_sy.SqlApi.Count.{select_count}
use single_terminal_login_sy.Loginer.{
  accept, process_login, is_valid_user_name_and_pass_word, is_already_logined,
  get_already_logined_client_fd, set_logout_status_then_login, login,
}
use single_terminal_login_sy.Loginer.Single.{OnlyDevice, previous_fd}
use single_terminal_login_sy.Cjson.{Cjson}
use single_terminal_login_sy.Daemon.{Daemon, find_key}
use single_terminal_login_sy.Client.Socket.{Client}
use single_terminal_login_sy.Client.Command.{credentials_item}
use single_terminal_login_sy.Client.Login as Login
use single_terminal_login_sy.Receiver.{MessageReceiver, extend_info, get_need_send_message}
use single_terminal_login_sy.Dispatcher.{MessageDispatcher, get_service_fd_and_message}
use single_terminal_login_sy.Manager.{UserLoginImpl, response_to, deal_client_message}
use single_terminal_login_sy.Manager.Session.{
  replied, IsLoginRequest, answer_to, returned, deal_client_message-OnlyDevice,
}
use single_terminal_login_sy.Journey.{sent, named, served}
use single_terminal_login_sy.Journey.Way.{get_json_string_from_params-IsLoginRequest}
use single_terminal_login_sy.Tests.Split.{split}
use single_terminal_login_sy.Tests.Server.{server, run, sign_out_named}
use single_terminal_login_sy.Tests.Server.Meaning.{server_laws}
use single_terminal_login_sy.Tests.Data.{
  ann, secret, start, session_of, session_of-Idle, start-IsSound, start-Fits,
}
use single_terminal_login_sy.Tests.Json.{
  Tree, json, json_laws, print_tree, find_text, find_field, append_field, append_fields, rest_after,
  get, num, str,
}
use single_terminal_login_sy.Tests.Kernels.{working, fresh}

abbrev pub device : Client
device = record { client_socket = pos 4; trace = [] }

abbrev pub receiver : Daemon MessageReceiver
receiver = fresh (record { send_to_message_dispatcher_service_fd = pos 4 })

abbrev pub dispatcher : Daemon MessageDispatcher
dispatcher = fresh (record { service_fd_map = (pos 1, pos 6) ∷ [] })

abbrev pub manager : Daemon (UserLoginImpl server)
manager = fresh (record { sql_api = session_of start })

abbrev pub message : Tree
message = sent (json []) MessageType.login (credentials_item (json []) ann secret)

abbrev extended : Tree
extended = named (json []) MessageType.login (credentials_item (json []) ann secret) (pos 9)

abbrev pub request : Tree
request = served (json []) MessageType.login (credentials_item (json []) ann secret) (pos 9)

abbrev on_the_way : List Tree
on_the_way = request ∷ extended ∷ message ∷ []

message_back : find_text on_the_way (print_tree message) ≡ some message
unfolding find_text print_tree append_field text_eq show_ℤ show_ℕ
message_back = refl

extended_back : find_text on_the_way (print_tree extended) ≡ some extended
unfolding find_text print_tree append_field text_eq show_ℤ show_ℕ
extended_back = refl

request_back : find_text on_the_way (print_tree request) ≡ some request
unfolding find_text print_tree append_field text_eq show_ℤ show_ℕ
request_back = refl

pub login_connected : find_key dispatcher.own.service_fd_map (pos 1) ≡ some (pos 6)
unfolding find_key
login_connected = refl

get_json_string_from_params-IsLoginRequest_example :
    (m₁ m₂ m₃ : Text) × (Login.get_json_string_from_params
        (json on_the_way)
        working
        (ann ∷ secret ∷ [])
        device
      ≡ (done (some m₁), device))
    × (get_need_send_message (json on_the_way) m₁ (pos 9) receiver ≡ (done m₂, receiver))
    × (get_service_fd_and_message (json on_the_way) m₂ dispatcher
        ≡ (done (some (pos 6, m₃)), dispatcher))
    × IsLoginRequest (json on_the_way) m₃ ann secret (pos 9)
get_json_string_from_params-IsLoginRequest_example =
    get_json_string_from_params-IsLoginRequest (json on_the_way) (json_laws on_the_way) working ann
      secret (pos 9) (pos 6) device receiver dispatcher (omega arith) message_back extended_back
      request_back login_connected

-- The request and the answer to it, which signs device 5 out.
abbrev pub info : Tree
info = extend_info (json []) (pos 9)

abbrev pub answer : Tree
answer =
    response_to (json []) (pos 5) (code_value (accept (pos 5)).code) (accept (pos 5)).msg request
      info

abbrev pub library : Cjson
library = json (request ∷ answer ∷ message ∷ [])

unfoldable pub the_request : IsLoginRequest library (print_tree request) ann secret (pos 9)
unfolding find_text print_tree append_field find_field text_eq show_ℤ show_ℕ narrow to_int
the_request = record {
  root = request;
  message = credentials_item (json []) ann secret;
  info = info;
  type_item = num (pos 2);
  user_item = str ann;
  pass_item = str secret;
  fd_item = num (pos 9);
  parses = refl;
  has_type = refl;
  type_is_number = refl;
  type_is_login = refl;
  has_message = refl;
  message_is_object = refl;
  has_info = refl;
  info_is_object = refl;
  has_user = refl;
  user_is_string = refl;
  user_is = refl;
  has_pass = refl;
  pass_is_string = refl;
  pass_is = refl;
  has_fd = refl;
  fd_is_number = refl;
  fd_is = refl;
}

abbrev pub after : SqlApi server
after = (process_login ann secret (pos 9) 100 (session_of start)).1

pub replaced_run :
    process_login ann secret (pos 9) 100 (session_of start) ≡ (done (accept (pos 5)), after)
unfolding process_login is_valid_user_name_and_pass_word is_already_logined
    get_already_logined_client_fd set_logout_status_then_login login select_count select get_result
    insert update push_rows clean_result run count_password_sql count_active_sql active_fd_sql
    insert_login_sql logout_sql text_eq strtoul to_int to_ull show_ℕ show_ℤ split active
    count_password sign_out_named
replaced_run = refl

deal_client_message-OnlyDevice_example :
    (deal_client_message library (λ _. 100) working (pos 8) (pos 0) (print_tree request) manager
      ≡ replied working
          (pos 8)
          (answer_to library request info (accept (pos 5)))
          (returned manager after))
    × OnlyDevice server_laws ann secret
        (pos 9)
        100
        start
        (accept (pos 5))
        (server_laws.tables (returned manager after).own.sql_api.mysql)
unfolding the_request
deal_client_message-OnlyDevice_example =
    deal_client_message-OnlyDevice server_laws library (λ _. 100) working (print_tree request) ann
      secret (pos 9) (pos 8) (pos 0) the_request manager start (accept (pos 5)) after (omega arith)
      (omega arith) start-IsSound start-Fits (session_of-Idle start) replaced_run refl

pub answer_back : find_text (request ∷ answer ∷ message ∷ []) (print_tree answer) ≡ some answer
unfolding find_text print_tree append_field append_fields rest_after text_eq show_ℤ show_ℕ
answer_back = refl

pub info_plain : get info (codes "logoutFd") ≡ none
unfolding find_field append_field text_eq
info_plain = refl

-- ann's device is the one with descriptor 5.
pub first_device : is_pos (previous_fd (active server_laws.same ann start.logins)) ≡ true
unfolding server_laws active text_eq
first_device = refl
