-- ===== src/Daemon/Quiet.antt =====
-- Code that leaves the heap and the interest list as they are.
use single_terminal_login_sy.Base.{◌≡◌, refl, sym, ap, ◌∙◌, Bool, ℕ}
use single_terminal_login_sy.Base.Text.{Text}
use single_terminal_login_sy.Base.Int.{ℤ}
use single_terminal_login_sy.Exec.{Exec}
use single_terminal_login_sy.Exec.Keeps.{Keeps, keeps_rules}
use single_terminal_login_sy.Daemon.{Daemon, call}
use single_terminal_login_sy.Daemon.System.{Kernel, sys_read, sys_write, sys_sleep}
use single_terminal_login_sy.Daemon.Epoll.{interest}
use single_terminal_login_sy.Daemon.Write.{IsQuiet}

pub record IsSame {X : Type 0} (s s' : Daemon X) : Type 0 where
  pub heap_eq : s'.heap ≡ s.heap
  pub next_eq : s'.next ≡ s.next
  pub interest_eq : (e k : ℤ) → interest s'.trace e k ≡ interest s.trace e k

module _ {X : Type 0} where
  pub IsSame-refl : (s : Daemon X) → IsSame s s
  IsSame-refl s = record { heap_eq = refl; next_eq = refl; interest_eq = λ e k. refl }

  pub read-Keeps :
      (first : Daemon X) (sys : Kernel) (fd : ℤ) (n : ℕ)
      → Keeps (IsSame first) (call sys (sys_read fd n))
  unfolding interest
  read-Keeps first sys fd n = record {
    after = λ s p. record { heap_eq = p.heap_eq; next_eq = p.next_eq; interest_eq = p.interest_eq };
  }

  pub write-Keeps :
      (first : Daemon X) (sys : Kernel) (fd : ℤ) (text : Text)
      → Keeps (IsSame first) (call sys (sys_write fd text))
  unfolding interest
  write-Keeps first sys fd text = record {
    after = λ s p. record { heap_eq = p.heap_eq; next_eq = p.next_eq; interest_eq = p.interest_eq };
  }

  pub sleep-Keeps :
      (first : Daemon X) (sys : Kernel) (n : ℕ) → Keeps (IsSame first) (call sys (sys_sleep n))
  unfolding interest
  sleep-Keeps first sys n = record {
    after = λ s p. record { heap_eq = p.heap_eq; next_eq = p.next_eq; interest_eq = p.interest_eq };
  }

  -- A handler that keeps what each state has of the heap and the interest list is quiet.
  pub IsQuiet-of_Keeps :
      (epoll_fd : ℤ) (h : ℤ → ℤ → Text → Exec (Daemon X) Bool)
      → ((first : Daemon X) (fd code : ℤ) (msg : Text) → Keeps (IsSame first) (h fd code msg))
      → IsQuiet epoll_fd h
  IsQuiet-of_Keeps epoll_fd h keeps = record {
    heap-same = λ fd code msg s s' r e.
        ap (λ x. x.1.heap) (sym e) ∙ ((keeps s fd code msg).after s (IsSame-refl s)).heap_eq;
    next-same = λ fd code msg s s' r e.
        ap (λ x. x.1.next) (sym e) ∙ ((keeps s fd code msg).after s (IsSame-refl s)).next_eq;
    interest-same = λ fd code msg s s' r e k.
        ap (λ x. interest x.1.trace epoll_fd k) (sym e)
        ∙ ((keeps s fd code msg).after s (IsSame-refl s)).interest_eq epoll_fd k;
  }

pub ruleset quiet_rules = (keeps_rules, read-Keeps, write-Keeps, sleep-Keeps)
