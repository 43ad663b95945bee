-- ===== src/Manager/Runs.antt =====
-- service/loginManager: what holds in every state of the service, from its start on.
use single_terminal_login_sy.Base.{Option, none, some, ℕ, ◌≡◌, ap}
use single_terminal_login_sy.Base.Int.{ℤ}
use single_terminal_login_sy.Exec.{done}
use single_terminal_login_sy.Exec.Keeps.{Keeps}
use single_terminal_login_sy.Mysql.{Mysql}
use single_terminal_login_sy.Cjson.{Cjson}
use single_terminal_login_sy.Daemon.{Daemon, new_daemon}
use single_terminal_login_sy.Daemon.System.{Kernel, Trace}
use single_terminal_login_sy.Daemon.Heap.{IsWf}
use single_terminal_login_sy.Daemon.Reach.{Reach, Reach-IsWf, new_daemon-IsWf, start_rules}
use single_terminal_login_sy.Manager.{UserLoginImpl, deal_client_message}
use single_terminal_login_sy.Manager.Main.{watch, listen, open_sockets}
use single_terminal_login_sy.Manager.Quiet.{manager-IsQuiet}

module _ {m : Mysql} (sys : Kernel) (epoll_fd : ℤ) where
  watch-Keeps : (l : ℤ) (o : Option ℤ) → Keeps (IsWf epoll_fd) (watch {m = m} sys l o)
  watch-Keeps l none = search start_rules
  watch-Keeps l (some e) = search start_rules depth 9

  listen-Keeps : (o : Option ℤ) → Keeps (IsWf epoll_fd) (listen {m = m} sys o)
  listen-Keeps none = search start_rules
  listen-Keeps (some l) = search (start_rules, watch-Keeps)

  start-Keeps : Keeps (IsWf {X = UserLoginImpl m} epoll_fd) (open_sockets sys)
  unfolding open_sockets
  start-Keeps = search (start_rules, listen-Keeps)

-- From the start of the manager on, and through every run in which each write event returned 0,
-- every address that the kernel holds is that of an allocated block for its descriptor.
pub manager_run-IsWf :
    {m : Mysql} (j : Cjson) (time : Trace → ℕ) (sys : Kernel) (own : (UserLoginImpl m))
    (listen_socket epoll_fd : ℤ) (first last : Daemon (UserLoginImpl m))
    → open_sockets sys (new_daemon own) ≡ (done (some (listen_socket, epoll_fd)), first)
    → Reach sys (deal_client_message j time sys) listen_socket epoll_fd first last
    → IsWf epoll_fd last
manager_run-IsWf j time sys own listen_socket epoll_fd first last started run =
    Reach-IsWf sys (deal_client_message j time sys) listen_socket epoll_fd first last
      (manager-IsQuiet j time sys epoll_fd)
      (rw⁻¹ (ap (λ x. x.1) started)
        ((start-Keeps sys epoll_fd).after (new_daemon own) (new_daemon-IsWf own epoll_fd)))
      run
