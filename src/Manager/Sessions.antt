-- ===== src/Manager/Sessions.antt =====
-- service/loginManager: in every state of the service the tables are in order.
use single_terminal_login_sy.Base.{ℕ, ◌≡◌, ap, Bool, true, false, Option, none, some, []}
use single_terminal_login_sy.Base.Text.{Text, c_str}
use single_terminal_login_sy.Base.Int.{ℤ}
use single_terminal_login_sy.Exec.{done}
use single_terminal_login_sy.Exec.Keeps.{Keeps, keeps_rules}
use single_terminal_login_sy.Mysql.{Mysql}
use single_terminal_login_sy.Loginer.Devices.{Moves}
use single_terminal_login_sy.Mysql.Laws.{MysqlLaws}
use single_terminal_login_sy.Cjson.{Cjson}
use single_terminal_login_sy.Daemon.{
  Daemon, EventDataBuf, new_daemon, block, create_listen_sock, create_epoll_fd,
}
use single_terminal_login_sy.Daemon.System.{Kernel, Trace}
use single_terminal_login_sy.Daemon.Own.{Owned, own_call-Keeps, ctl-Keeps, Handles, Reach-Owned}
use single_terminal_login_sy.Daemon.Reach.{Reach, begin, event, Along}
use single_terminal_login_sy.Manager.{
  UserLoginImpl, operate_type_of, get_operate_type, respond, get_response_message, conclude,
  deal_client_message,
}
use single_terminal_login_sy.Manager.Main.{watch, listen, open_sockets}
use single_terminal_login_sy.Manager.Order.{InOrder}
use single_terminal_login_sy.Manager.Leaves.{Rested, Roomy, Leaves, then-Leaves, first-Leaves}
use single_terminal_login_sy.Manager.Rested.{IsCalm, operate-Leaves}

module _ {m : Mysql} (Q : UserLoginImpl m → Type 0) (j : Cjson) (time : Trace → ℕ) where
  type_of-Keeps : (o : Option j.Item) → Keeps (Owned Q) (operate_type_of j time o)
  type_of-Keeps none = search keeps_rules
  type_of-Keeps (some item) = search keeps_rules

  type-Keeps : (text : Text) → Keeps (Owned Q) (get_operate_type j time text)
  unfolding get_operate_type
  type-Keeps text = search (keeps_rules, type_of-Keeps)

  respond-Keeps :
      (fd code : ℤ) (msg : Text) (r : j.Item) (o : Option j.Item)
      → Keeps (Owned Q) (respond j time fd code msg r o)
  respond-Keeps fd code msg r none = search keeps_rules
  respond-Keeps fd code msg r (some info) = search keeps_rules

  response-Keeps :
      (text : Text) (fd code : ℤ) (msg : Text)
      → Keeps (Owned Q) (get_response_message j time text fd code msg)
  unfolding get_response_message
  response-Keeps text fd code msg = search (keeps_rules, respond-Keeps)

  conclude-Keeps : (sys : Kernel) (b : Bool) → Keeps (Owned Q) (conclude j time sys b)
  conclude-Keeps sys false = search keeps_rules
  conclude-Keeps sys true = search (keeps_rules, own_call-Keeps)

module _ {m : Mysql} (Q : UserLoginImpl m → Type 0) (sys : Kernel) where
  sock-Keeps : (ip : Text) (port : ℕ) → Keeps (Owned Q) (create_listen_sock sys ip port)
  unfolding create_listen_sock
  sock-Keeps ip port = search (keeps_rules, own_call-Keeps) depth 9

  epoll-Keeps : Keeps (Owned Q) (create_epoll_fd sys)
  unfolding create_epoll_fd
  epoll-Keeps = search (keeps_rules, own_call-Keeps)

  watch-Keeps : (l : ℤ) (o : Option ℤ) → Keeps (Owned Q) (watch sys l o)
  watch-Keeps l none = search keeps_rules
  watch-Keeps l (some e) = search (keeps_rules, ctl-Keeps) depth 9

  listen-Keeps : (o : Option ℤ) → Keeps (Owned Q) (listen sys o)
  listen-Keeps none = search keeps_rules
  listen-Keeps (some l) = search (keeps_rules, epoll-Keeps, watch-Keeps)

  open-Keeps : Keeps (Owned Q) (open_sockets sys)
  unfolding open_sockets
  open-Keeps = search (keeps_rules, sock-Keeps, listen-Keeps)

module _ {m : Mysql} (laws : MysqlLaws m) (j : Cjson) (time : Trace → ℕ) (sys : Kernel) where
  handler-Leaves :
      (fd code : ℤ) (text : Text)
      → IsCalm j text
      → Leaves laws (deal_client_message j time sys fd code text)
  unfolding deal_client_message
  handler-Leaves fd code text calm =
      first-Leaves laws _ _ (λ Q. type-Keeps Q j time text)
        (λ t.
          then-Leaves laws _ _ (operate-Leaves laws j time text calm t)
            (λ Q a. search (keeps_rules, own_call-Keeps, response-Keeps, conclude-Keeps) depth 9))

  -- For a message that names no user or password with a quote or a backslash, from tables in order
  -- with no row pending and a next row number that fits in an int: whatever the message says,
  -- whatever the answers of the database and of the system are, and however the login manager's
  -- handler ends, also by an assertion, or when it reads a freed row that has changed, which is
  -- undefined behaviour, the map from users to the devices on which they are logged in is as
  -- before, or as before but for one user.
  pub deal_client_message-Moves :
      (fd code : ℤ) (text : Text) (s : Daemon (UserLoginImpl m))
      → IsCalm j text
      → Roomy laws s.own
      → Rested laws s.own
      → Moves laws.same
          (laws.tables s.own.sql_api.mysql)
          (laws.tables (deal_client_message j time sys fd code text s).1.own.sql_api.mysql)
  deal_client_message-Moves fd code text s calm room rested =
      ((handler-Leaves fd code text calm).after s room rested).1

  -- What the messages that wait in the heap say, and the next row number, are within bounds.
  pub record IsMild (s : Daemon (UserLoginImpl m)) : Type 0 where
    pub room : Roomy laws s.own
    pub calm : (p : ℕ) (b : EventDataBuf) → block s.heap p ≡ some b → IsCalm j (c_str b.message)

  handles_lem :
      (s : Daemon (UserLoginImpl m))
      → IsMild s
      → Handles (Rested laws) sys (deal_client_message j time sys) s
  handles_lem s mild p b here r =
      ((handler-Leaves b.fd b.code (c_str b.message) (mild.calm p b here)).after s mild.room r).0

  -- Every state of a mild run has its messages handled so that the tables stay in order.
  mild_lem :
      (l e : ℤ) (first last : Daemon (UserLoginImpl m))
      (run : Reach sys (deal_client_message j time sys) l e first last)
      → Along sys (deal_client_message j time sys) l e IsMild run
      → Along sys
          (deal_client_message j time sys)
          l
          e
          (Handles (Rested laws) sys (deal_client_message j time sys))
          run
  mild_lem l e first last begin mild = tt
  mild_lem l e first last (event s s' fd asked ev ready r before given ran good) (here, milds) =
      (handles_lem s here, mild_lem l e first s before milds)

  -- From the start of the login manager on, through every run in which each write event returned 0,
  -- no message names a user or a password with a quote or a backslash, and the next row number fits
  -- in an int: when the service began with tables in order and no row pending, then in its last
  -- state, whatever the messages, the database's errors and the order of events were, every user is
  -- logged in on one device at most, every name has one account at most, and every login was made
  -- with the name and the password of an account.
  pub manager_run-InOrder :
      (own : UserLoginImpl m) (l e : ℤ) (first last : Daemon (UserLoginImpl m))
      → open_sockets sys (new_daemon own) ≡ (done (some (l, e)), first)
      → (run : Reach sys (deal_client_message j time sys) l e first last)
      → Along sys (deal_client_message j time sys) l e IsMild run
      → own.sql_api.mysql_result.mysql_row_vec ≡ []
      → InOrder laws.same (laws.tables own.sql_api.mysql)
      → InOrder laws.same (laws.tables last.own.sql_api.mysql)
  manager_run-InOrder own l e first last started run mild none_pending before =
      (Reach-Owned (Rested laws) sys (deal_client_message j time sys) l e first last run
        (mild_lem l e first last run mild)
        (rw⁻¹ (ap (λ x. x.1) started) (
          (open-Keeps (Rested laws) sys).after (new_daemon own)
            (record { no_rows = none_pending; tables_in_order = before })))).tables_in_order
