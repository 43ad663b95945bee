-- ===== src/Daemon/Read.antt =====
-- daemon.cpp, dealReadEvent: what it hands to the kernel, and that it keeps the heap in order.
use single_terminal_login_sy.Base.{
  ℕ, suc, ◌<◌, ◌≡◌, ◌≢◌, refl, sym, ap, ◌∙◌, inl, inr, true, false, some, ◌∷◌, ltb, ◌==◌,
  Bool-cases, arith,
}
use single_terminal_login_sy.Base.Int.{ℤ, pos, negsuc, is_neg, eq_ℤ}
use single_terminal_login_sy.Exec.{null_pointer, done, crash}
use single_terminal_login_sy.Daemon.{
  EventDataBuf, Daemon, block, release, empty_buf, message_of, after_read, peer_closed,
  deal_read_event, max_message_len, epoll_ctl,
}
use single_terminal_login_sy.Daemon.System.{
  out_events, no_events, data_fd, data_ptr, epoll_mod, epoll_del, Call, sys_close, sys_epoll_ctl,
  sys_read, sys_malloc, Reply, Trace, Kernel,
}
use single_terminal_login_sy.Daemon.Epoll.{
  interest, interest_close, interest_mod, interest_mod_done,
}
use single_terminal_login_sy.Daemon.Heap.{
  IsWf, IsWf-grow, block_head, block_tail, block-release_other,
}

abbrev pub hand : ℤ → ℤ → ℕ → Call
hand fd epoll_fd p = sys_epoll_ctl epoll_fd epoll_mod fd out_events (data_ptr p)

module _ {X : Type 0} (sys : Kernel) where
  -- The calls made up to the read, and the state there.
  abbrev pub asked : Daemon X → Trace
  asked s = (sys_malloc, sys s.trace sys_malloc) ∷ s.trace

  abbrev pub read_reply : Daemon X → ℤ → Reply
  read_reply s fd = sys (asked s) (sys_read fd max_message_len)

  abbrev pub opened : Daemon X → ℤ → Daemon X
  opened s fd = record s {
    heap = (s.next, empty_buf fd) ∷ s.heap;
    next = suc s.next;
    trace = (sys_read fd max_message_len, read_reply s fd) ∷ asked s;
  }

  -- A store to the newest block.
  abbrev pub filled : Daemon X → ℕ → EventDataBuf → Daemon X
  filled s p b = record s { heap = (p, b) ∷ release s.heap p }

  abbrev pub handed : ℤ → ℤ → ℕ → Daemon X → Daemon X
  handed fd epoll_fd p s = record s {
    trace = (hand fd epoll_fd p, sys s.trace (hand fd epoll_fd p)) ∷ s.trace;
  }

  pub deal_read_opened :
      (s : Daemon X) (fd epoll_fd : ℤ)
      → eq_ℤ (sys s.trace sys_malloc).ret (pos 0) ≡ false
      → deal_read_event sys fd epoll_fd s
        ≡ after_read sys fd epoll_fd s.next (read_reply s fd) (read_reply s fd).ret (opened s fd)
  unfolding deal_read_event
  deal_read_opened s fd epoll_fd ok = rw ok refl

  pub deal_read_null :
      (s : Daemon X) (fd epoll_fd : ℤ)
      → eq_ℤ (sys s.trace sys_malloc).ret (pos 0) ≡ true
      → deal_read_event sys fd epoll_fd s ≡ crash null_pointer (record s { trace = asked s })
  unfolding deal_read_event
  deal_read_null s fd epoll_fd ok = rw ok refl

  pub block-filled :
      (s : Daemon X) (fd : ℤ) (b : EventDataBuf) (q : ℕ)
      → s.next ≢ q
      → block (filled (opened s fd) s.next b).heap q ≡ block s.heap q
  block-filled s fd b q n =
      block_tail (release (opened s fd).heap s.next) s.next q b n
      ∙ block-release_other (opened s fd).heap s.next q n
      ∙ block_tail s.heap s.next q (empty_buf fd) n

  null-IsWf :
      (s : Daemon X) (epoll_fd : ℤ) → IsWf epoll_fd s → IsWf epoll_fd (record s { trace = asked s })
  unfolding interest
  null-IsWf s epoll_fd wf = record { held = wf.held; below = wf.below }

  filled-IsWf :
      (s : Daemon X) (fd epoll_fd : ℤ) (b : EventDataBuf)
      → IsWf epoll_fd s
      → IsWf epoll_fd (filled (opened s fd) s.next b)
  unfolding interest
  filled-IsWf s fd epoll_fd b wf =
      IsWf-grow epoll_fd s (filled (opened s fd) s.next b) wf refl (block-filled s fd b)
        (λ _ _ _. inl)

  opened-IsWf : (s : Daemon X) (fd epoll_fd : ℤ) → IsWf epoll_fd s → IsWf epoll_fd (opened s fd)
  unfolding interest
  opened-IsWf s fd epoll_fd wf =
      IsWf-grow epoll_fd s (opened s fd) wf refl
        (λ q n. block_tail s.heap s.next q (empty_buf fd) n) (λ _ _ _. inl)

  handed-IsWf :
      (s : Daemon X) (fd epoll_fd : ℤ) (b : EventDataBuf)
      → b.fd ≡ fd
      → IsWf epoll_fd s
      → IsWf epoll_fd (handed fd epoll_fd s.next (filled (opened s fd) s.next b))
  unfolding interest
  handed-IsWf s fd epoll_fd b eb wf =
      IsWf-grow epoll_fd s (handed fd epoll_fd s.next (filled (opened s fd) s.next b)) wf refl
        (block-filled s fd b)
        (λ k p ev e.
          elim (interest_mod epoll_fd k (ev, data_ptr p) (filled (opened s fd) s.next b).trace
            (sys (filled (opened s fd) s.next b).trace (hand fd epoll_fd s.next)) fd out_events
            (data_ptr s.next) e) [
              | inl old ↦ inl old
              | inr (same, ek) ↦ inr (
                b,
                rw (sym (data_ptr_inj s.next p (ap (λ x. x.1) same)))
                    (block_head (release (opened s fd).heap s.next) s.next b),
                eb ∙ sym ek,
              )
            ])
    where
      data_ptr_inj : (p q : ℕ) → data_ptr p ≡ data_ptr q → p ≡ q
      data_ptr_inj p q e = cc

  closed-IsWf :
      (s : Daemon X) (fd epoll_fd : ℤ)
      → IsWf epoll_fd s
      → IsWf epoll_fd (peer_closed sys fd epoll_fd s.next (opened s fd)).1
  unfolding epoll_ctl interest
  closed-IsWf s fd epoll_fd wf =
      IsWf-grow epoll_fd s (peer_closed sys fd epoll_fd s.next (opened s fd)).1 wf refl
        (λ q n.
          block-release_other (opened s fd).heap s.next q n
          ∙ block_tail s.heap s.next q (empty_buf fd) n)
        (λ k p ev e. inl (
          interest_close epoll_fd k (ev, data_ptr p) (opened s fd).trace
            (sys (opened s fd).trace (sys_epoll_ctl epoll_fd epoll_del fd no_events (data_fd fd)))
            (sys (epoll_ctl sys epoll_fd epoll_del fd no_events (opened s fd)).1.trace
              (sys_close fd))
            fd no_events (data_fd fd) e))

  after_read-IsWf :
      (s : Daemon X) (fd epoll_fd : ℤ) (r : Reply) (z : ℤ)
      → IsWf epoll_fd s
      → IsWf epoll_fd (after_read sys fd epoll_fd s.next r z (opened s fd)).1
  after_read-IsWf s fd epoll_fd r (negsuc n) wf = filled-IsWf s fd epoll_fd _ wf
  after_read-IsWf s fd epoll_fd r (pos n) wf = elim (Bool-cases (n == 0)) [
    | inl e ↦ rw e (closed-IsWf s fd epoll_fd wf)
    | inr e ↦ elim (Bool-cases (ltb n max_message_len)) [
      | inl l ↦ rw (e, l) (handed-IsWf s fd epoll_fd (message_of fd r.bytes) refl wf)
      | inr l ↦ rw (e, l) (opened-IsWf s fd epoll_fd wf)
    ]
  ]

  -- However dealReadEvent ends, every address that the kernel holds for a descriptor is still that
  -- of an allocated block for this descriptor, and blocks lie below the next address.
  pub deal_read_event-IsWf :
      (s : Daemon X) (fd epoll_fd : ℤ)
      → IsWf epoll_fd s
      → IsWf epoll_fd (deal_read_event sys fd epoll_fd s).1
  deal_read_event-IsWf s fd epoll_fd wf =
      elim (Bool-cases (eq_ℤ (sys s.trace sys_malloc).ret (pos 0))) [
        | inl null ↦ rw (deal_read_null s fd epoll_fd null) (null-IsWf s epoll_fd wf)
        | inr ok ↦
            rw (deal_read_opened s fd epoll_fd ok)
              (after_read-IsWf s fd epoll_fd (read_reply s fd) (read_reply s fd).ret wf)
      ]

  -- The state after a read that gave bytes.
  abbrev pub read_state : Daemon X → ℤ → ℤ → Daemon X
  read_state s fd epoll_fd =
      handed fd epoll_fd s.next
        (filled (opened s fd) s.next (message_of fd (read_reply s fd).bytes))

  received_lem :
      (s : Daemon X) (fd epoll_fd : ℤ) (p n : ℕ) (r : Reply)
      → suc n < max_message_len
      → after_read sys fd epoll_fd p r (pos (suc n)) s
        ≡ (done true, handed fd epoll_fd p (filled s p (message_of fd r.bytes)))
  received_lem s fd epoll_fd p n r lt = rw (not_zero, short) refl
    where
      not_zero : (suc n == 0) ≡ false
      not_zero = ground arith

      short : ltb (suc n) max_message_len ≡ true
      short = ground arith

  pub deal_read_lem :
      (s : Daemon X) (fd epoll_fd : ℤ) (n : ℕ)
      → eq_ℤ (sys s.trace sys_malloc).ret (pos 0) ≡ false
      → (read_reply s fd).ret ≡ pos (suc n)
      → suc n < max_message_len
      → deal_read_event sys fd epoll_fd s ≡ (done true, read_state s fd epoll_fd)
  deal_read_lem s fd epoll_fd n ok er lt =
      deal_read_opened s fd epoll_fd ok
      ∙ ap (λ z. after_read sys fd epoll_fd s.next (read_reply s fd) z (opened s fd)) er
      ∙ received_lem (opened s fd) fd epoll_fd s.next n (read_reply s fd) lt

  -- When malloc gives a block, the read gives between 1 and 10239 bytes and the change of the
  -- registration succeeds, dealReadEvent returns 0, the kernel holds the address of a block for the
  -- descriptor, with EPOLLOUT, and the block holds the descriptor, SUCCESS and the bytes read.
  pub deal_read_event_hands :
      (s : Daemon X) (fd epoll_fd : ℤ) (n : ℕ)
      → eq_ℤ (sys s.trace sys_malloc).ret (pos 0) ≡ false
      → (read_reply s fd).ret ≡ pos (suc n)
      → suc n < max_message_len
      → is_neg (sys (opened s fd).trace (hand fd epoll_fd s.next)).ret ≡ false
      → let s' = (deal_read_event sys fd epoll_fd s).1 in
        ((deal_read_event sys fd epoll_fd s).0 ≡ done true)
        × (interest s'.trace epoll_fd fd ≡ some (out_events, data_ptr s.next))
        × (block s'.heap s.next ≡ some (message_of fd (read_reply s fd).bytes))
  deal_read_event_hands s fd epoll_fd n ok er lt up = rw (deal_read_lem s fd epoll_fd n ok er lt) (
    refl,
    interest_mod_done epoll_fd fd (opened s fd).trace
        (sys (opened s fd).trace (hand fd epoll_fd s.next)) out_events (data_ptr s.next) up,
    block_head (release (opened s fd).heap s.next) s.next (message_of fd (read_reply s fd).bytes),
  )
