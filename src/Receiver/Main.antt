-- ===== src/Receiver/Main.antt =====
-- service/messageReceiver/main.cpp: the start of the service, and a round of its loop.
use single_terminal_login_sy.Base.{Option, none, some, List, if◌then◌else◌}
use single_terminal_login_sy.Base.Text.{codes}
use single_terminal_login_sy.Base.Int.{ℤ}
use single_terminal_login_sy.Exec.{Exec, pure, ◌>>=◌}
use single_terminal_login_sy.Cjson.{Cjson}
use single_terminal_login_sy.Daemon.{Daemon, create_listen_sock, create_epoll_fd, epoll_ctl}
use single_terminal_login_sy.Daemon.Loop.{wait_and_deal}
use single_terminal_login_sy.Daemon.System.{Kernel, Trace, Events, EpollData, in_events, epoll_add}
use single_terminal_login_sy.Receiver.{
  MessageReceiver, connect_tomessage_dispatcher_service, deal_client_message,
}

module _ (sys : Kernel) where
  abbrev pub join_dispatcher : ℤ → ℤ → Exec (Daemon MessageReceiver) (Option (ℤ × ℤ))
  join_dispatcher listen_socket epoll_fd = do
    connected ← connect_tomessage_dispatcher_service sys epoll_fd
    if connected then pure (some (listen_socket, epoll_fd)) else pure none

  abbrev pub watch : ℤ → Option ℤ → Exec (Daemon MessageReceiver) (Option (ℤ × ℤ))
  watch listen_socket none = pure none
  watch listen_socket (some epoll_fd) = do
    added ← epoll_ctl sys epoll_fd epoll_add listen_socket in_events
    if added then join_dispatcher listen_socket epoll_fd else pure none

  abbrev pub listen : Option ℤ → Exec (Daemon MessageReceiver) (Option (ℤ × ℤ))
  listen none = pure none
  listen (some listen_socket) = do epoll_fd ← create_epoll_fd sys; watch listen_socket epoll_fd

  -- main up to its loop: the listening socket and the epoll instance; none is a return of -1.
  unfoldable pub start : Exec (Daemon MessageReceiver) (Option (ℤ × ℤ))
  start = do listen_socket ← create_listen_sock sys (codes "127.0.0.1") 8080; listen listen_socket

  abbrev pub loop_round :
      Cjson → (Trace → List (Events × EpollData)) → ℤ → ℤ → Exec (Daemon MessageReceiver) (Unit {0})
  loop_round j ready listen_socket epoll_fd =
      wait_and_deal sys (deal_client_message j sys) ready listen_socket epoll_fd
