-- ===== src/Daemon/Epoll.antt =====
-- What epoll_ctl(2) and close(2) say of the interest list, read off the calls made: the abstract
-- view that the pointers handed to the kernel are held against.
use single_terminal_login_sy.Base.{
  ℕ, false, not, ◌&&◌, Option, none, some, [], ◌∷◌, if◌then◌else◌, ◌≡◌, refl, ◌⊎◌, arith,
}
use single_terminal_login_sy.Base.Int.{ℤ, is_neg, eq_ℤ, eq_ℤ_eq, eq_ℤ_refl}
use single_terminal_login_sy.Daemon.System.{
  Events, EpollData, data_fd, data_ptr, EpollOp, epoll_add, epoll_mod, epoll_del, Call, sys_close,
  sys_epoll_ctl, Reply, Trace,
}

abbrev pub entry : EpollOp → Events → EpollData → Option (Events × EpollData)
entry epoll_del events ready = none
entry epoll_add events ready = some (events, ready)
entry epoll_mod events ready = some (events, ready)

-- What one call leaves of the entry for fd.
abbrev pub after_call :
    ℤ → ℤ → Call → Reply → Option (Events × EpollData) → Option (Events × EpollData)
after_call epoll_fd fd (sys_epoll_ctl e op k events ready) r old =
    if not (is_neg r.ret) && (eq_ℤ epoll_fd e && eq_ℤ fd k) then entry op events ready else old
after_call epoll_fd fd (sys_close k) r old = if eq_ℤ fd k then none else old
after_call epoll_fd fd c r old = old

-- The events and the data that the epoll instance holds for a descriptor.
unfoldable pub interest : Trace → ℤ → ℤ → Option (Events × EpollData)
interest [] epoll_fd fd = none
interest ((c, r) ∷ t) epoll_fd fd = after_call epoll_fd fd c r (interest t epoll_fd fd)

module _ (epoll_fd fd : ℤ) (x : Events × EpollData) where
  -- Removing a descriptor adds no entry.
  pub interest_close :
      (t : Trace) (r r' : Reply) (k : ℤ) (ev : Events) (d : EpollData)
      → interest ((sys_close k, r') ∷ (sys_epoll_ctl epoll_fd epoll_del k ev d, r) ∷ t) epoll_fd fd
        ≡ some x
      → interest t epoll_fd fd ≡ some x
  unfolding interest
  interest_close t r r' k ev d h = ground arith

  -- A change makes one entry, for the descriptor it names.
  pub interest_mod :
      (t : Trace) (r : Reply) (k : ℤ) (ev : Events) (d : EpollData)
      → interest ((sys_epoll_ctl epoll_fd epoll_mod k ev d, r) ∷ t) epoll_fd fd ≡ some x
      → (interest t epoll_fd fd ≡ some x) ⊎ (((ev, d) ≡ x) × (fd ≡ k))
  unfolding interest
  interest_mod t r k ev d h = ground (arith, eq_ℤ_eq fd k)

-- A change that succeeded is in force, and the other descriptors keep theirs.
pub interest_mod_done :
    (epoll_fd fd : ℤ) (t : Trace) (r : Reply) (ev : Events) (d : EpollData)
    → is_neg r.ret ≡ false
    → interest ((sys_epoll_ctl epoll_fd epoll_mod fd ev d, r) ∷ t) epoll_fd fd ≡ some (ev, d)
unfolding interest
interest_mod_done epoll_fd fd t r ev d ok = rw (ok, eq_ℤ_refl epoll_fd, eq_ℤ_refl fd) refl

-- An addition gives the kernel no address: it holds one only where it held it.
pub interest_add :
    (epoll_fd e fd k : ℤ) (t : Trace) (r : Reply) (ev ev' : Events) (p : ℕ)
    → interest ((sys_epoll_ctl e epoll_add k ev (data_fd k), r) ∷ t) epoll_fd fd
      ≡ some (ev', data_ptr p)
    → interest t epoll_fd fd ≡ some (ev', data_ptr p)
unfolding interest
interest_add epoll_fd e fd k t r ev ev' p h = ground arith

-- Closing a descriptor adds no entry.
pub interest_closed :
    (epoll_fd fd k : ℤ) (t : Trace) (r : Reply) (x : Events × EpollData)
    → interest ((sys_close k, r) ∷ t) epoll_fd fd ≡ some x
    → interest t epoll_fd fd ≡ some x
unfolding interest
interest_closed epoll_fd fd k t r x h = ground arith
