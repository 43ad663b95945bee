-- ===== src/Daemon/Own.antt =====
-- The part of a daemon's state that a service owns: DaemonBase leaves it alone, so that what a handler
-- keeps of it holds in every state of a run.
use single_terminal_login_sy.Base.{
  ℕ, suc, ◌^◌, ◌≡◌, refl, ap, inl, inr, ◌&&◌, Bool, true, false, Option, none, some, ltb,
  if◌then◌else◌, Bool-cases,
}
use single_terminal_login_sy.Base.Text.{Text, c_str}
use single_terminal_login_sy.Base.Int.{ℤ, pos, negsuc, eq_ℤ}
use single_terminal_login_sy.Exec.{Exec, pure, continue}
use single_terminal_login_sy.Exec.Keeps.{Keeps, continue-Keeps, keeps_rules}
use single_terminal_login_sy.Daemon.{
  Daemon, EventDataBuf, block, call, epoll_ctl, name_fd, count_client, deal_connect_request, fd_of,
  allocate, store, free, after_read, deal_read_event, after_message, write_loaded, loaded,
  deal_write_event,
}
use single_terminal_login_sy.Daemon.System.{
  Events, EpollData, data_fd, data_ptr, Call, sys_malloc, EpollOp, Kernel, Reply,
}
use single_terminal_login_sy.Daemon.Loop.{deal_event}
use single_terminal_login_sy.Daemon.Reach.{Reach, begin, event, Along}

module _ {X : Type 0} (Q : X → Type 0) where
  -- The service's part has the property.
  abbrev pub Owned : Daemon X → Type 0
  Owned s = Q s.own

  module _ (sys : Kernel) where
    pub own_call-Keeps : (c : Call) → Keeps Owned (call sys c)
    own_call-Keeps c = record { after = λ s q. q }

    pub ctl-Keeps :
        (e : ℤ) (op : EpollOp) (k : ℤ) (ev : Events) → Keeps Owned (epoll_ctl sys e op k ev)
    unfolding epoll_ctl
    ctl-Keeps e op k ev = record { after = λ s q. q }

    own_name-Keeps : (k : ℤ) (name : Text) → Keeps Owned (name_fd k name)
    own_name-Keeps k name = record { after = λ s q. q }

    own_count-Keeps : Keeps Owned count_client
    own_count-Keeps = record {
      after = λ s q. elim (Bool-cases (ltb (suc s.client_num) (2 ^ 31))) [
        | inl h ↦ rw h q
        | inr h ↦ rw h q
      ];
    }

    own_connect-Keeps : (l e : ℤ) → Keeps Owned (deal_connect_request sys l e)
    unfolding deal_connect_request
    own_connect-Keeps l e =
        search (keeps_rules, own_call-Keeps, ctl-Keeps, own_name-Keeps, own_count-Keeps) depth 9

    store-Keeps : (p : ℕ) (b : EventDataBuf) → Keeps Owned (store sys p b)
    store-Keeps p b = record { after = λ s q. q }

    free-Keeps : (p : ℕ) → Keeps Owned (free p)
    free-Keeps p = record { after = λ s q. q }

    alloc-Keeps : (b : EventDataBuf) → Keeps Owned (allocate sys b)
    alloc-Keeps b = record {
      after = λ s q. elim (Bool-cases (eq_ℤ (sys s.trace sys_malloc).ret (pos 0))) [
        | inl h ↦ rw h q
        | inr h ↦ rw h q
      ];
    }

    after_read-Keeps :
        (fd e : ℤ) (p : ℕ) (r : Reply) (z : ℤ) → Keeps Owned (after_read sys fd e p r z)
    after_read-Keeps fd e p r (negsuc n) = search (keeps_rules, store-Keeps)
    after_read-Keeps fd e p r (pos n) =
        search (keeps_rules, own_call-Keeps, ctl-Keeps, store-Keeps, free-Keeps) depth 9

    own_read-Keeps : (fd e : ℤ) → Keeps Owned (deal_read_event sys fd e)
    unfolding deal_read_event
    own_read-Keeps fd e = search (keeps_rules, own_call-Keeps, alloc-Keeps, after_read-Keeps)

    after_message-Keeps :
        (fd e : ℤ) (p : ℕ) (ran : Bool) → Keeps Owned (after_message sys fd e p ran)
    after_message-Keeps fd e p false = search (keeps_rules, free-Keeps)
    after_message-Keeps fd e p true = search (keeps_rules, free-Keeps, ctl-Keeps)

    module _ (h : ℤ → ℤ → Text → Exec (Daemon X) Bool) where
      -- The handler keeps the property on each message that waits in the heap of `s`.
      abbrev pub Handles : Daemon X → Type 0
      Handles s =
          (p : ℕ) (b : EventDataBuf)
          → block s.heap p ≡ some b
          → Q s.own
          → Q (h b.fd b.code (c_str b.message) s).1.own

      loaded_lem :
          (e : ℤ) (p : ℕ) (o : Option EventDataBuf) (s : Daemon X)
          → block s.heap p ≡ o
          → Handles s
          → Q s.own
          → Q (continue (loaded p o s) (write_loaded sys h e)).1.own
      loaded_lem e p none s here ok q = q
      loaded_lem e p (some b) s here ok q =
          continue-Keeps (h b.fd b.code (c_str b.message) s) (after_message sys b.fd e p)
            (ok p b here q) (after_message-Keeps b.fd e p)

      owned_write_lem :
          (e : ℤ) (ready : EpollData) (s : Daemon X)
          → Handles s
          → Q s.own
          → Q (deal_write_event sys h e ready s).1.own
      unfolding deal_write_event
      owned_write_lem e (data_fd k) s ok q = q
      owned_write_lem e (data_ptr p) s ok q = loaded_lem e p (block s.heap p) s refl ok q

      owned_event_lem :
          (l e : ℤ) (ev : Events) (ready : EpollData) (s : Daemon X)
          → Handles s
          → Q s.own
          → Q (deal_event sys h l e (ev, ready) s).1.own
      unfolding deal_event
      owned_event_lem l e ev ready s ok q =
          branch (eq_ℤ (fd_of ready) l && ev.epollin) ev.epollin ev.epollout
        where
          branch :
              (a b c : Bool)
              → Q
                  ((if a
                      then deal_connect_request sys l e
                      else if b
                      then deal_read_event sys (fd_of ready) e
                      else if c
                      then deal_write_event sys h e ready
                      else pure true)
                    s).1.own
          branch true b c = (own_connect-Keeps l e).after s q
          branch false true c = (own_read-Keeps (fd_of ready) e).after s q
          branch false false true = owned_write_lem e ready s ok q
          branch false false false = q

      -- What the handler keeps on every message of a run holds at the end of the run.
      pub Reach-Owned :
          (l e : ℤ) (first last : Daemon X) (run : Reach sys h l e first last)
          → Along sys h l e Handles run
          → Q first.own
          → Q last.own
      Reach-Owned l e first last begin ok q = q
      Reach-Owned l e first last (event s s' fd asked ev ready r before given ran good) (ok, oks)
            q =
          rw⁻¹ (ap (λ x. x.1) ran)
            (owned_event_lem l e ev ready s ok (Reach-Owned l e first s before oks q))
