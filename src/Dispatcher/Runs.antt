-- ===== src/Dispatcher/Runs.antt =====
-- service/messageDispatcher: what holds in every state of the service, from its start on.
use single_terminal_login_sy.Base.{Option, none, some, ◌≡◌, ap}
use single_terminal_login_sy.Base.Int.{ℤ}
use single_terminal_login_sy.Exec.{done}
use single_terminal_login_sy.Exec.Keeps.{Keeps}
use single_terminal_login_sy.Cjson.{Cjson}
use single_terminal_login_sy.Daemon.{Daemon, new_daemon}
use single_terminal_login_sy.Daemon.System.{Kernel}
use single_terminal_login_sy.Daemon.Heap.{IsWf}
use single_terminal_login_sy.Daemon.Reach.{Reach, Reach-IsWf, new_daemon-IsWf, start_rules}
use single_terminal_login_sy.Dispatcher.{
  MessageDispatcher, keep_service, after_connect, connect_all_handle_service, deal_client_message,
}
use single_terminal_login_sy.Dispatcher.Main.{watch, listen, start}
use single_terminal_login_sy.Dispatcher.Relay.{dispatcher-IsQuiet}

module _ (sys : Kernel) (epoll_fd : ℤ) where
  keep-Keeps : (service fd : ℤ) → Keeps (IsWf epoll_fd) (keep_service service fd)
  keep-Keeps service fd = record { after = λ s w. record { held = w.held; below = w.below } }

  after-Keeps : (e : ℤ) (o : Option ℤ) → Keeps (IsWf epoll_fd) (after_connect sys e o)
  after-Keeps e none = search start_rules
  after-Keeps e (some fd) = search (start_rules, keep-Keeps) depth 9

  connect-Keeps : (e : ℤ) → Keeps (IsWf epoll_fd) (connect_all_handle_service sys e)
  unfolding connect_all_handle_service
  connect-Keeps e = search (start_rules, after-Keeps)

  watch-Keeps : (l : ℤ) (o : Option ℤ) → Keeps (IsWf epoll_fd) (watch sys l o)
  watch-Keeps l none = search start_rules
  watch-Keeps l (some e) = search (start_rules, connect-Keeps) depth 9

  listen-Keeps : (o : Option ℤ) → Keeps (IsWf epoll_fd) (listen sys o)
  listen-Keeps none = search start_rules
  listen-Keeps (some l) = search (start_rules, watch-Keeps)

  start-Keeps : Keeps (IsWf epoll_fd) (start sys)
  unfolding start
  start-Keeps = search (start_rules, listen-Keeps)

-- From the start of the dispatcher on, and through every run in which each write event returned 0,
-- every address that the kernel holds is that of an allocated block for its descriptor.
pub dispatcher_run-IsWf :
    (j : Cjson) (sys : Kernel) (own : MessageDispatcher) (listen_socket epoll_fd : ℤ)
    (first last : Daemon MessageDispatcher)
    → start sys (new_daemon own) ≡ (done (some (listen_socket, epoll_fd)), first)
    → Reach sys (deal_client_message j sys) listen_socket epoll_fd first last
    → IsWf epoll_fd last
dispatcher_run-IsWf j sys own listen_socket epoll_fd first last started run =
    Reach-IsWf sys (deal_client_message j sys) listen_socket epoll_fd first last
      (dispatcher-IsQuiet j sys epoll_fd)
      (rw⁻¹ (ap (λ x. x.1) started)
        ((start-Keeps sys epoll_fd).after (new_daemon own) (new_daemon-IsWf own epoll_fd)))
      run
