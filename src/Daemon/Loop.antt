-- ===== src/Daemon/Loop.antt =====
-- The loop of service/messageReceiver/main.cpp, service/messageDispatcher/main.cpp and
-- service/loginManager/main/main.cpp over the events of epoll.
use single_terminal_login_sy.Base.{
  ℕ, zero, suc, Bool, true, List, [], ◌∷◌, ◌&&◌, ◌==◌, if◌then◌else◌,
}
use single_terminal_login_sy.Base.Text.{Text}
use single_terminal_login_sy.Base.Int.{ℤ, pos, negsuc, eq_ℤ}
use single_terminal_login_sy.Exec.{Exec, pure, ◌>>=◌}
use single_terminal_login_sy.Daemon.{
  Daemon, call, fd_of, deal_connect_request, deal_read_event, deal_write_event,
}
use single_terminal_login_sy.Daemon.System.{Events, EpollData, Kernel, Trace, sys_epoll_wait}

-- The events below readyFdCount.
unfoldable pub first_events : ℕ → List (Events × EpollData) → List (Events × EpollData)
first_events zero es = []
first_events (suc n) [] = []
first_events (suc n) (e ∷ es) = e ∷ first_events n es

module _ {X : Type 0} (sys : Kernel)
    (deal_client_message : ℤ → ℤ → Text → Exec (Daemon X) Bool) where
  -- The body of the loop over the events that epoll_wait gave.
  unfoldable pub deal_event : ℤ → ℤ → Events × EpollData → Exec (Daemon X) Bool
  deal_event listen_socket epoll_fd (events, ready) =
      if eq_ℤ (fd_of ready) listen_socket && events.epollin
      then deal_connect_request sys listen_socket epoll_fd
      else if events.epollin
      then deal_read_event sys (fd_of ready) epoll_fd
      else if events.epollout
      then deal_write_event sys deal_client_message epoll_fd ready
      else pure true

  unfoldable pub deal_events : ℤ → ℤ → List (Events × EpollData) → Exec (Daemon X) (Unit {0})
  deal_events listen_socket epoll_fd [] = pure tt
  deal_events listen_socket epoll_fd (e ∷ es) = do
    _ ← deal_event listen_socket epoll_fd e
    deal_events listen_socket epoll_fd es

  -- What the switch over the result of epoll_wait does; `ready` are the events that it stored.
  abbrev pub deal_ready : ℤ → ℤ → List (Events × EpollData) → ℤ → Exec (Daemon X) (Unit {0})
  deal_ready listen_socket epoll_fd ready (negsuc n) = pure tt
  deal_ready listen_socket epoll_fd ready (pos n) =
      if n == 0 then pure tt else deal_events listen_socket epoll_fd (first_events n ready)

  -- One round of the loop of main, MAXEVENTS being 64 and TIMEOUT 500.
  unfoldable pub wait_and_deal :
      (Trace → List (Events × EpollData)) → ℤ → ℤ → Exec (Daemon X) (Unit {0})
  wait_and_deal ready listen_socket epoll_fd = do
    count ← call sys (sys_epoll_wait epoll_fd 64 500)
    found ← (λ s. pure (ready s.trace) s)
    deal_ready listen_socket epoll_fd found count.ret
