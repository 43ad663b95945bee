-- ===== src/Daemon/Write.antt =====
-- daemon.cpp, dealWriteEvent: the handler gets the block that was filled, and what becomes of the
-- block and of the address that the kernel holds.
use single_terminal_login_sy.Base.{
  ℕ, suc, ◌<◌, ◌≤◌, ◌≡◌, ◌≢◌, refl, sym, ap, ◌∙◌, ◌⊎◌, inl, inr, Bool, true, false, not, none, some,
  ◌∷◌, ltb, ◌==◌, arith,
}
use single_terminal_login_sy.Base.Text.{Text, c_str}
use single_terminal_login_sy.Base.Int.{ℤ, pos, is_neg, eq_ℤ}
use single_terminal_login_sy.Codes.{code_value, success}
use single_terminal_login_sy.Exec.{
  Exec, Outcome, done, fault, continue, continue_of, out_of_bounds, use_after_free,
}
use single_terminal_login_sy.Daemon.{
  EventDataBuf, Daemon, block, release, message_of, after_message, deal_read_event,
  deal_write_event, max_message_len, epoll_ctl, after_read, loaded, write_loaded,
}
use single_terminal_login_sy.Daemon.System.{
  Events, in_events, data_fd, data_ptr, epoll_mod, Call, sys_epoll_ctl, sys_malloc, Kernel,
}
use single_terminal_login_sy.Daemon.Epoll.{interest, interest_mod, interest_mod_done}
use single_terminal_login_sy.Daemon.Heap.{IsWf, block_head, block-release, block-release_other}
use single_terminal_login_sy.Daemon.Read.{
  read_reply, opened, read_state, deal_read_lem, deal_read_opened,
}

-- A handler that leaves the heap and the interest list as they are, as one that only writes to and
-- reads from sockets does.
pub record IsQuiet {X : Type 0} (epoll_fd : ℤ) (h : ℤ → ℤ → Text → Exec (Daemon X) Bool)
    : Type 0 where
  pub heap-same :
      (fd code : ℤ) (msg : Text) (s s' : Daemon X) (r : Bool)
      → h fd code msg s ≡ (done r, s')
      → s'.heap ≡ s.heap
  pub next-same :
      (fd code : ℤ) (msg : Text) (s s' : Daemon X) (r : Bool)
      → h fd code msg s ≡ (done r, s')
      → s'.next ≡ s.next
  pub interest-same :
      (fd code : ℤ) (msg : Text) (s s' : Daemon X) (r : Bool)
      → h fd code msg s ≡ (done r, s')
      → (k : ℤ) → interest s'.trace epoll_fd k ≡ interest s.trace epoll_fd k

module _ {X : Type 0} (sys : Kernel) (h : ℤ → ℤ → Text → Exec (Daemon X) Bool) (epoll_fd : ℤ) where
  pub deal_write_lem :
      (s : Daemon X) (p : ℕ) (b : EventDataBuf)
      → block s.heap p ≡ some b
      → deal_write_event sys h epoll_fd (data_ptr p) s
        ≡ continue (h b.fd b.code (c_str b.message) s) (after_message sys b.fd epoll_fd p)
  unfolding deal_write_event
  deal_write_lem s p b e = ap (λ o. continue (loaded p o s) (write_loaded sys h epoll_fd)) e

  -- The block freed, and the change back to EPOLLIN asked for.
  abbrev pub rearm : ℤ → Call
  rearm fd = sys_epoll_ctl epoll_fd epoll_mod fd in_events (data_fd fd)

  abbrev pub rearmed : ℤ → ℕ → Daemon X → Daemon X
  rearmed fd p s = record s {
    heap = release s.heap p;
    trace = (rearm fd, sys s.trace (rearm fd)) ∷ s.trace;
  }

  pub after_message_lem :
      (fd : ℤ) (p : ℕ) (s : Daemon X)
      → after_message sys fd epoll_fd p true s
        ≡ (done (not (is_neg (sys s.trace (rearm fd)).ret)), rearmed fd p s)
  unfolding epoll_ctl
  after_message_lem fd p s = refl

  -- When malloc gives a block and the read gives between 1 and 10239 bytes, the write event for the
  -- address that dealReadEvent handed out calls the handler once, with the descriptor, SUCCESS and
  -- the bytes up to the first NUL, and goes on to free the block.
  pub deal_write_event-deal_read_event :
      (s : Daemon X) (fd : ℤ) (n : ℕ)
      → eq_ℤ (sys s.trace sys_malloc).ret (pos 0) ≡ false
      → (read_reply sys s fd).ret ≡ pos (suc n)
      → suc n < max_message_len
      → let s' = (deal_read_event sys fd epoll_fd s).1 in
        deal_write_event sys h epoll_fd (data_ptr s.next) s'
        ≡ continue
            (h fd (code_value success) (c_str (read_reply sys s fd).bytes) s')
            (after_message sys fd epoll_fd s.next)
  deal_write_event-deal_read_event s fd n ok er lt =
      rw (deal_read_lem sys s fd epoll_fd n ok er lt) (
        deal_write_lem (read_state sys s fd epoll_fd) s.next
          (message_of fd (read_reply sys s fd).bytes)
          (block_head (release (opened sys s fd).heap s.next) s.next
            (message_of fd (read_reply sys s fd).bytes)))

  -- When the handler fails on the block at an address, dealWriteEvent frees the block, reports the
  -- failure and leaves the interest list as the handler left it; the next write event for the
  -- address reads the freed block.
  pub deal_write_event_again :
      (s s' : Daemon X) (p : ℕ) (b : EventDataBuf)
      → block s.heap p ≡ some b
      → h b.fd b.code (c_str b.message) s ≡ (done false, s')
      → let s'' = record s' { heap = release s'.heap p } in
        (deal_write_event sys h epoll_fd (data_ptr p) s ≡ (done false, s''))
        × (deal_write_event sys h epoll_fd (data_ptr p) s'' ≡ (fault use_after_free, s''))
        × (interest s''.trace epoll_fd b.fd ≡ interest s'.trace epoll_fd b.fd)
  unfolding deal_write_event
  deal_write_event_again s s' p b e failed = (
    deal_write_lem s p b e ∙ continue_of (after_message sys b.fd epoll_fd p) failed,
    ap
        (λ o.
          continue (loaded p o (record s' { heap = release s'.heap p }))
            (write_loaded sys h epoll_fd))
        (block-release s'.heap p),
    refl,
  )

  -- What a write event that returned 0 did.
  finished :
      (fd : ℤ) (p : ℕ) (s' : Daemon X) (o : Outcome Bool × Daemon X)
      → continue o (after_message sys fd epoll_fd p) ≡ (done true, s')
      → (s1 : Daemon X) × (o ≡ (done true, s1))
        × (rearmed fd p s1 ≡ s')
        × (is_neg (sys s1.trace (rearm fd)).ret ≡ false)
  finished fd p s' (fault x, s1) e = cc
  finished fd p s' (done false, s1) e = cc
  finished fd p s' (done true, s1) e =
      let e' = sym (after_message_lem fd p s1) ∙ e in
      (
        s1,
        refl,
        ap (λ x. x.1) e',
        not_true (is_neg (sys s1.trace (rearm fd)).ret) (ap (λ x. x.0) e'),
      )
    where
      not_true : (b : Bool) → done (not b) ≡ done true → b ≡ false
      not_true true e = cc
      not_true false e = refl

  rearmed-IsWf :
      (s s1 : Daemon X) (p : ℕ) (b : EventDataBuf)
      → IsWf epoll_fd s
      → block s.heap p ≡ some b
      → s1.heap ≡ s.heap
      → s1.next ≡ s.next
      → ((k : ℤ) → interest s1.trace epoll_fd k ≡ interest s.trace epoll_fd k)
      → is_neg (sys s1.trace (rearm b.fd)).ret ≡ false
      → IsWf epoll_fd (rearmed b.fd p s1)
  rearmed-IsWf s s1 p b wf eb eh en ei ok = record {
    held = λ k q ev e.
        elim (interest_mod epoll_fd k (ev, data_ptr q) s1.trace (sys s1.trace (rearm b.fd)) b.fd
          in_events (data_fd b.fd) e) [
            | inr (same, _) ↦ elim (other_data (ap (λ x. x.1) same)) [ ]
            | inl old ↦
                (let (b', eb', ek) = wf.held k q ev (sym (ei k) ∙ old) in
                  (
                    b',
                    block-release_other s1.heap p q (λ pq. not_held b' k q ev eb' ek e pq)
                        ∙ (rw eh eb'),
                    ek,
                  ))
          ];
    below = λ q b' e. elim (nat_eq q) [
      | inl pq ↦ elim (freed q b' pq e) [ ]
      | inr n ↦ rw en (wf.below q b' (rw⁻¹ eh (sym (block-release_other s1.heap p q n) ∙ e)))
    ];
  }
    where
      nat_eq : (q : ℕ) → (p ≡ q) ⊎ (p ≢ q)
      nat_eq q = omega arith

      freed : (q : ℕ) (b' : EventDataBuf) → p ≡ q → block (release s1.heap p) q ≡ some b' → ⊥
      freed q b' pq e =
          let gone = block-release s1.heap p in
          let none_some : none ≡ some b' = sym gone ∙ ap (block (release s1.heap p)) pq ∙ e in cc

      other_data : {q : ℕ} {x : ℤ} → data_fd x ≡ data_ptr q → ⊥
      other_data e = cc

      some_fd : (a b' : EventDataBuf) → some a ≡ some b' → a.fd ≡ b'.fd
      some_fd a b' e = cc

      not_held :
          (b' : EventDataBuf) (k : ℤ) (q : ℕ) (ev : Events)
          → block s.heap q ≡ some b'
          → b'.fd ≡ k
          → interest (rearmed b.fd p s1).trace epoll_fd k ≡ some (ev, data_ptr q)
          → p ≡ q
          → ⊥
      not_held b' k q ev eb' ek e pq =
          let same_b : some b ≡ some b' = sym eb ∙ ap (block s.heap) pq ∙ eb' in
          let fds : b.fd ≡ k = some_fd b b' same_b ∙ ek in
          let now =
            interest_mod_done epoll_fd b.fd s1.trace (sys s1.trace (rearm b.fd)) in_events
              (data_fd b.fd) ok in
          let clash : some (in_events, data_fd b.fd) ≡ some (ev, data_ptr q) =
            sym now ∙ ap (interest (rearmed b.fd p s1).trace epoll_fd) fds ∙ e in
          cc

  -- With a quiet handler, when the kernel holds an address for a descriptor, dealWriteEvent returns 0
  -- for that address only in a state where every address that the kernel holds is still that of an
  -- allocated block for its descriptor.
  pub deal_write_event-IsWf :
      (s s' : Daemon X) (fd : ℤ) (p : ℕ) (ev : Events)
      → IsQuiet epoll_fd h
      → IsWf epoll_fd s
      → interest s.trace epoll_fd fd ≡ some (ev, data_ptr p)
      → deal_write_event sys h epoll_fd (data_ptr p) s ≡ (done true, s')
      → IsWf epoll_fd s'
  deal_write_event-IsWf s s' fd p ev quiet wf given e =
      let (b, eb, ef) = wf.held fd p ev given in
      let (s1, ran, same, ok) =
        finished b.fd p s' (h b.fd b.code (c_str b.message) s)
          (sym (deal_write_lem s p b eb) ∙ e) in
      rw⁻¹ same (
        rearmed-IsWf s s1 p b wf eb (quiet.heap-same b.fd b.code (c_str b.message) s s1 true ran)
          (quiet.next-same b.fd b.code (c_str b.message) s s1 true ran)
          (quiet.interest-same b.fd b.code (c_str b.message) s s1 true ran) ok)

  -- A read that fills the whole array stores its final NUL past the end of the array.
  pub deal_read_event_full :
      (s : Daemon X) (fd : ℤ) (n : ℕ)
      → eq_ℤ (sys s.trace sys_malloc).ret (pos 0) ≡ false
      → (read_reply sys s fd).ret ≡ pos n
      → max_message_len ≤ n
      → deal_read_event sys fd epoll_fd s ≡ (fault out_of_bounds, opened sys s fd)
  deal_read_event_full s fd n ok er le =
      deal_read_opened sys s fd epoll_fd ok
      ∙ ap (λ z. after_read sys fd epoll_fd s.next (read_reply sys s fd) z (opened sys s fd)) er
      ∙ rw (not_zero, long) refl
    where
      not_zero : (n == 0) ≡ false
      not_zero = ground arith

      long : ltb n max_message_len ≡ false
      long = ground arith
