-- ===== src/Manager/Main.antt =====
-- service/loginManager/main/main.cpp: the start of the service, and a round of its loop.
use single_terminal_login_sy.Base.{ℕ, Option, none, some, List, if◌then◌else◌}
use single_terminal_login_sy.Base.Text.{codes}
use single_terminal_login_sy.Base.Int.{ℤ}
use single_terminal_login_sy.Exec.{Exec, Outcome, done, pure, ◌>>=◌}
use single_terminal_login_sy.Mysql.{Mysql}
use single_terminal_login_sy.SqlApi.{SqlApi}
use single_terminal_login_sy.SqlApi.Connect.{MysqlOpen, settings, connect_mysql}
use single_terminal_login_sy.Cjson.{Cjson}
use single_terminal_login_sy.Daemon.{
  Daemon, create_listen_sock, create_epoll_fd, epoll_ctl, new_daemon,
}
use single_terminal_login_sy.Daemon.Loop.{wait_and_deal}
use single_terminal_login_sy.Daemon.System.{Kernel, Trace, Events, EpollData, in_events, epoll_add}
use single_terminal_login_sy.Manager.{UserLoginImpl, deal_client_message}

module _ {m : Mysql} (sys : Kernel) where
  abbrev pub watch : ℤ → Option ℤ → Exec (Daemon (UserLoginImpl m)) (Option (ℤ × ℤ))
  watch listen_socket none = pure none
  watch listen_socket (some epoll_fd) = do
    added ← epoll_ctl sys epoll_fd epoll_add listen_socket in_events
    if added then pure (some (listen_socket, epoll_fd)) else pure none

  abbrev pub listen : Option ℤ → Exec (Daemon (UserLoginImpl m)) (Option (ℤ × ℤ))
  listen none = pure none
  listen (some listen_socket) = do epoll_fd ← create_epoll_fd sys; watch listen_socket epoll_fd

  -- The sockets that main opens; none is a return of -1.
  unfoldable pub open_sockets : Exec (Daemon (UserLoginImpl m)) (Option (ℤ × ℤ))
  open_sockets = do
    listen_socket ← create_listen_sock sys (codes "127.0.0.1") 8082
    listen listen_socket

  abbrev pub start_with :
      Option (SqlApi m) → Outcome (Option (ℤ × ℤ)) × Option (Daemon (UserLoginImpl m))
  start_with none = (done none, none)
  start_with (some sql_api) =
      let (o, s) = open_sockets (new_daemon (record { sql_api = sql_api })) in (o, some s)

  -- main up to its loop: the listening socket and the epoll instance, none for a return of -1, and the
  -- object, if the connection to the database was made.
  abbrev pub start : MysqlOpen m → Outcome (Option (ℤ × ℤ)) × Option (Daemon (UserLoginImpl m))
  start open_calls = start_with (connect_mysql open_calls settings)

  abbrev pub loop_round :
      Cjson
      → (Trace → ℕ)
      → (Trace → List (Events × EpollData))
      → ℤ
      → ℤ
      → Exec (Daemon (UserLoginImpl m)) (Unit {0})
  loop_round j time ready listen_socket epoll_fd =
      wait_and_deal sys (deal_client_message j time sys) ready listen_socket epoll_fd
