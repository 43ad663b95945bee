-- ===== src/Daemon/Heap.antt =====
-- daemon.cpp: the blocks of the heap that the kernel holds addresses of.
use single_terminal_login_sy.Base.{
  ℕ, suc, ◌<◌, ◌≡◌, ◌≢◌, refl, sym, ◌∙◌, ◌⊎◌, inl, inr, none, some, List, [], ◌∷◌, arith,
}
use single_terminal_login_sy.Base.Int.{ℤ}
use single_terminal_login_sy.Daemon.{EventDataBuf, Daemon, block, release}
use single_terminal_login_sy.Daemon.System.{Events, data_ptr}
use single_terminal_login_sy.Daemon.Epoll.{interest}

pub block-release : (h : List (ℕ × EventDataBuf)) (p : ℕ) → block (release h p) p ≡ none
unfolding block release
block-release [] p = refl
block-release ((q, b) ∷ h) p = ground (arith, block-release h p)

pub block-release_other :
    (h : List (ℕ × EventDataBuf)) (p q : ℕ) → p ≢ q → block (release h p) q ≡ block h q
unfolding block release
block-release_other [] p q n = refl
block-release_other ((k, b) ∷ h) p q n = ground (arith, block-release_other h p q n)

pub block_head :
    (h : List (ℕ × EventDataBuf)) (p : ℕ) (b : EventDataBuf) → block ((p, b) ∷ h) p ≡ some b
unfolding block
block_head h p b = ground arith

pub block_tail :
    (h : List (ℕ × EventDataBuf)) (p q : ℕ) (b : EventDataBuf)
    → p ≢ q
    → block ((p, b) ∷ h) q ≡ block h q
unfolding block
block_tail h p q b n = ground arith

-- Every address that the kernel holds for a descriptor is that of a block for this descriptor, and
-- blocks lie below the next address.
pub record IsWf {X : Type 0} (epoll_fd : ℤ) (s : Daemon X) : Type 0 where
  pub held :
      (fd : ℤ) (p : ℕ) (ev : Events)
      → interest s.trace epoll_fd fd ≡ some (ev, data_ptr p)
      → (b : EventDataBuf) × (block s.heap p ≡ some b) × (b.fd ≡ fd)
  pub below : (p : ℕ) (b : EventDataBuf) → block s.heap p ≡ some b → p < s.next

-- A change that touches the block at the next address only, and gives the kernel no address but
-- that one.
pub IsWf-grow :
    {X : Type 0} (epoll_fd : ℤ) (s s' : Daemon X)
    → IsWf epoll_fd s
    → s'.next ≡ suc s.next
    → ((q : ℕ) → s.next ≢ q → block s'.heap q ≡ block s.heap q)
    → ((fd : ℤ) (p : ℕ) (ev : Events)
        → interest s'.trace epoll_fd fd ≡ some (ev, data_ptr p)
        → (interest s.trace epoll_fd fd ≡ some (ev, data_ptr p))
          ⊎ ((b : EventDataBuf) × (block s'.heap p ≡ some b) × (b.fd ≡ fd)))
    → IsWf epoll_fd s'
IsWf-grow epoll_fd s s' wf en same entries = record {
  held = λ fd p ev e. elim (entries fd p ev e) [
    | inl old ↦
        (let (b, eb, ef) = wf.held fd p ev old in (b, same p (λ q. below_next p b eb q) ∙ eb, ef))
    | inr new ↦ new
  ];
  below = λ p b e. elim (nat_eq p) [
    | inl q ↦ (let u = sym q in omega arith)
    | inr n ↦ (let lt = wf.below p b (sym (same p n) ∙ e) in omega arith)
  ];
}
  where
    below_next : (p : ℕ) (b : EventDataBuf) → block s.heap p ≡ some b → s.next ≢ p
    below_next p b eb q = let lt = wf.below p b eb in omega arith

    nat_eq : (p : ℕ) → (s.next ≡ p) ⊎ (s.next ≢ p)
    nat_eq p = omega arith
