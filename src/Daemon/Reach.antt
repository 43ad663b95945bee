-- ===== src/Daemon/Reach.antt =====
-- The states that the loop of a service runs through, one event at a time, and what holds in them.
use single_terminal_login_sy.Base.{
  ℕ, suc, ◌^◌, ◌≡◌, ap, ◌∙◌, ◌⊎◌, inl, inr, Bool, true, false, ◌&&◌, none, some, ◌∷◌, ltb,
  if◌then◌else◌, Bool-cases,
}
use single_terminal_login_sy.Base.Text.{Text}
use single_terminal_login_sy.Base.Int.{ℤ, eq_ℤ}
use single_terminal_login_sy.Exec.{Exec, done, pure}
use single_terminal_login_sy.Exec.Keeps.{Keeps, keeps_rules}
use single_terminal_login_sy.Daemon.{
  Daemon, new_daemon, block, call, epoll_ctl, name_fd, count_client, deal_connect_request,
  deal_read_event, deal_write_event, fd_of, create_listen_sock, create_epoll_fd, connect_to_service,
}
use single_terminal_login_sy.Daemon.Loop.{deal_event}
use single_terminal_login_sy.Daemon.System.{
  Events, EpollData, data_fd, data_ptr, Call, sys_socket, sys_bind, sys_listen, sys_connect,
  sys_epoll_create, sys_accept, sys_epoll_ctl, sys_close, epoll_add, Kernel, Trace, Reply,
}
use single_terminal_login_sy.Daemon.Epoll.{interest, interest_add, interest_closed}
use single_terminal_login_sy.Daemon.Heap.{IsWf}
use single_terminal_login_sy.Daemon.Read.{deal_read_event-IsWf}
use single_terminal_login_sy.Daemon.Write.{IsQuiet, deal_write_event-IsWf}

module _ {X : Type 0} (sys : Kernel) (epoll_fd : ℤ) where
  -- A call that gives the kernel no address keeps the heap in order.
  call-Keeps :
      (c : Call)
      → ((fd : ℤ) (p : ℕ) (ev : Events) (t : Trace) (r : Reply)
          → interest ((c, r) ∷ t) epoll_fd fd ≡ some (ev, data_ptr p)
          → interest t epoll_fd fd ≡ some (ev, data_ptr p))
      → Keeps (IsWf {X = X} epoll_fd) (call sys c)
  call-Keeps c old = record {
    after = λ s w. record {
      held = λ fd p ev e. w.held fd p ev (old fd p ev s.trace (sys s.trace c) e);
      below = w.below;
    };
  }

  socket-Keeps : Keeps (IsWf {X = X} epoll_fd) (call sys sys_socket)
  unfolding interest
  socket-Keeps = call-Keeps sys_socket (λ fd p ev t r e. e)

  bind_call-Keeps :
      (k : ℤ) (ip : Text) (port : ℕ) → Keeps (IsWf {X = X} epoll_fd) (call sys (sys_bind k ip port))
  unfolding interest
  bind_call-Keeps k ip port = call-Keeps (sys_bind k ip port) (λ fd p ev t r e. e)

  listen-Keeps : (k : ℤ) (n : ℕ) → Keeps (IsWf {X = X} epoll_fd) (call sys (sys_listen k n))
  unfolding interest
  listen-Keeps k n = call-Keeps (sys_listen k n) (λ fd p ev t r e. e)

  connect_call-Keeps :
      (k : ℤ) (ip : Text) (port : ℕ)
      → Keeps (IsWf {X = X} epoll_fd) (call sys (sys_connect k ip port))
  unfolding interest
  connect_call-Keeps k ip port = call-Keeps (sys_connect k ip port) (λ fd p ev t r e. e)

  create-Keeps : (n : ℕ) → Keeps (IsWf {X = X} epoll_fd) (call sys (sys_epoll_create n))
  unfolding interest
  create-Keeps n = call-Keeps (sys_epoll_create n) (λ fd p ev t r e. e)

  accept-Keeps : (k : ℤ) → Keeps (IsWf {X = X} epoll_fd) (call sys (sys_accept k))
  unfolding interest
  accept-Keeps k = call-Keeps (sys_accept k) (λ fd p ev t r e. e)

  close-Keeps : (k : ℤ) → Keeps (IsWf {X = X} epoll_fd) (call sys (sys_close k))
  close-Keeps k =
      call-Keeps (sys_close k)
        (λ fd p ev t r e. interest_closed epoll_fd fd k t r (ev, data_ptr p) e)

  pub add-Keeps :
      (e k : ℤ) (ev : Events) → Keeps (IsWf {X = X} epoll_fd) (epoll_ctl sys e epoll_add k ev)
  unfolding epoll_ctl
  add-Keeps e k ev = record {
    after = λ s w. record {
      held = λ fd p ev' h. w.held fd p ev' (
          interest_add epoll_fd e fd k s.trace
            (sys s.trace (sys_epoll_ctl e epoll_add k ev (data_fd k))) ev ev' p h);
      below = w.below;
    };
  }

  pub name-Keeps : (k : ℤ) (name : Text) → Keeps (IsWf {X = X} epoll_fd) (name_fd k name)
  name-Keeps k name = record { after = λ s w. record { held = w.held; below = w.below } }

  count-Keeps : Keeps (IsWf {X = X} epoll_fd) count_client
  count-Keeps = record {
    after = λ s w. elim (Bool-cases (ltb (suc s.client_num) (2 ^ 31))) [
      | inl h ↦ rw h (record { held = w.held; below = w.below })
      | inr h ↦ rw h w
    ];
  }

  connect-Keeps : (l e : ℤ) → Keeps (IsWf {X = X} epoll_fd) (deal_connect_request sys l e)
  unfolding deal_connect_request
  connect-Keeps l e = search (keeps_rules, accept-Keeps, add-Keeps, name-Keeps, count-Keeps) depth 9

module _ {X : Type 0} (sys : Kernel) (h : ℤ → ℤ → Text → Exec (Daemon X) Bool)
    (listen_socket epoll_fd : ℤ) where
  -- One event of a run from `first`: epoll gives only what its interest list holds, and the event was
  -- dealt with to the end, with a return of 0 when it was not one to read.
  pub data Reach (first : Daemon X) : Daemon X → Type 0 where
    begin : Reach first first
    event :
        (s s' : Daemon X) (fd : ℤ) (asked ev : Events) (ready : EpollData) (r : Bool)
        → Reach first s
        → interest s.trace epoll_fd fd ≡ some (asked, ready)
        → deal_event sys h listen_socket epoll_fd (ev, ready) s ≡ (done r, s')
        → (ev.epollin ≡ true) ⊎ (r ≡ true)
        → Reach first s'

  -- The property holds in every state of the run in which an event was about to be dealt with.
  abbrev pub Along : {first last : Daemon X} → (Daemon X → Type 0) → Reach first last → Type 0
  Along P begin = Unit {0}
  Along P (event s s' fd asked ev ready r before given e ok) = P s × Along P before

  write-IsWf :
      (s s' : Daemon X) (fd : ℤ) (asked : Events) (ready : EpollData)
      → IsQuiet epoll_fd h
      → IsWf epoll_fd s
      → interest s.trace epoll_fd fd ≡ some (asked, ready)
      → deal_write_event sys h epoll_fd ready s ≡ (done true, s')
      → IsWf epoll_fd s'
  unfolding deal_write_event
  write-IsWf s s' fd asked (data_fd k) quiet w given e = cc
  write-IsWf s s' fd asked (data_ptr p) quiet w given e =
      deal_write_event-IsWf sys h epoll_fd s s' fd p asked quiet w given e

  event-IsWf :
      (s s' : Daemon X) (fd : ℤ) (asked ev : Events) (ready : EpollData) (r : Bool)
      → IsQuiet epoll_fd h
      → IsWf epoll_fd s
      → interest s.trace epoll_fd fd ≡ some (asked, ready)
      → deal_event sys h listen_socket epoll_fd (ev, ready) s ≡ (done r, s')
      → (ev.epollin ≡ true) ⊎ (r ≡ true)
      → IsWf epoll_fd s'
  unfolding deal_event
  event-IsWf s s' fd asked ev ready r quiet w given e ok =
      branch (eq_ℤ (fd_of ready) listen_socket && ev.epollin) ev.epollin ev.epollout e ok
    where
      branch :
          (a b c : Bool)
          → (if a
                then deal_connect_request sys listen_socket epoll_fd
                else if b
                then deal_read_event sys (fd_of ready) epoll_fd
                else if c
                then deal_write_event sys h epoll_fd ready
                else pure true)
              s
            ≡ (done r, s')
          → (b ≡ true) ⊎ (r ≡ true)
          → IsWf epoll_fd s'
      branch true b c e ok =
          rw⁻¹ (ap (λ x. x.1) e) ((connect-Keeps sys epoll_fd listen_socket epoll_fd).after s w)
      branch false true c e ok =
          rw⁻¹ (ap (λ x. x.1) e) (deal_read_event-IsWf sys s (fd_of ready) epoll_fd w)
      branch false false true e (inl no_in) = cc
      branch false false true e (inr good) =
          write-IsWf s s' fd asked ready quiet w given (e ∙ ap (λ b. (done b, s')) good)
      branch false false false e ok = rw⁻¹ (ap (λ x. x.1) e) w

  -- In every state that a run reaches in which each write event returned 0, with a quiet handler and
  -- from a state in order, every address that the kernel holds is that of an allocated block for its
  -- descriptor: no write event reads freed memory.
  pub Reach-IsWf :
      (first s : Daemon X)
      → IsQuiet epoll_fd h
      → IsWf epoll_fd first
      → Reach first s
      → IsWf epoll_fd s
  Reach-IsWf first s quiet w begin = w
  Reach-IsWf first last quiet w (event s s' fd asked ev ready r before given e ok) =
      event-IsWf s s' fd asked ev ready r quiet (Reach-IsWf first s quiet w before) given e ok

-- A new daemon has its heap in order.
pub new_daemon-IsWf : {X : Type 0} (own : X) (epoll_fd : ℤ) → IsWf epoll_fd (new_daemon own)
unfolding interest block
new_daemon-IsWf own epoll_fd = record {
  held = λ fd p ev e. elim (nothing e) [ ];
  below = λ p b e. elim (no_block e) [ ];
}
  where
    nothing : {A : Type 0} {x : A} → none ≡ some x → ⊥
    nothing e = cc

    no_block : {A : Type 0} {x : A} → none ≡ some x → ⊥
    no_block e = cc

module _ {X : Type 0} (sys : Kernel) (epoll_fd : ℤ) where
  pub sock-Keeps :
      (ip : Text) (port : ℕ) → Keeps (IsWf {X = X} epoll_fd) (create_listen_sock sys ip port)
  unfolding create_listen_sock
  sock-Keeps ip port = search (keeps_rules, socket-Keeps, bind_call-Keeps, listen-Keeps) depth 9

  pub epoll-Keeps : Keeps (IsWf {X = X} epoll_fd) (create_epoll_fd sys)
  unfolding create_epoll_fd
  epoll-Keeps = search (keeps_rules, create-Keeps)

  pub service-Keeps :
      (ip : Text) (port : ℕ) → Keeps (IsWf {X = X} epoll_fd) (connect_to_service sys ip port)
  unfolding connect_to_service
  service-Keeps ip port =
      search (keeps_rules, socket-Keeps, connect_call-Keeps, close-Keeps) depth 9

-- The rules for what the services do before their loops.
pub ruleset start_rules =
    (keeps_rules, sock-Keeps, epoll-Keeps, service-Keeps, add-Keeps, name-Keeps)
