-- ===== src/Tests/Events.antt =====
-- The theorems on the daemon's events at one device, descriptor 7, watched by the epoll instance 3.
use single_terminal_login_sy.Base.{◌≡◌, refl, Bool, true, false, some, arith}
use single_terminal_login_sy.Base.Text.{Text, codes, c_str}
use single_terminal_login_sy.Base.Int.{ℤ, pos}
use single_terminal_login_sy.Codes.{code_value, success}
use single_terminal_login_sy.Exec.{Exec, pure, continue, done, fault, use_after_free}
use single_terminal_login_sy.Daemon.{
  Daemon, block, release, deal_read_event, deal_write_event, epoll_ctl, after_message, message_of,
}
use single_terminal_login_sy.Daemon.System.{out_events, data_ptr}
use single_terminal_login_sy.Daemon.Epoll.{interest}
use single_terminal_login_sy.Daemon.Heap.{IsWf}
use single_terminal_login_sy.Daemon.Read.{deal_read_event-IsWf, deal_read_event_hands}
use single_terminal_login_sy.Daemon.Write.{
  IsQuiet, deal_write_event-IsWf, deal_write_event-deal_read_event, deal_write_event_again,
}
use single_terminal_login_sy.Daemon.Quiet.{IsQuiet-of_Keeps}
use single_terminal_login_sy.Exec.Keeps.{pure-Keeps}
use single_terminal_login_sy.Receiver.{MessageReceiver}
use single_terminal_login_sy.Tests.Kernels.{working, fresh, fresh-IsWf, failing}

abbrev idle : Daemon MessageReceiver
idle = fresh (record { send_to_message_dispatcher_service_fd = pos 4 })

-- After the device's message was read.
abbrev waiting : Daemon MessageReceiver
waiting = (deal_read_event working (pos 7) (pos 3) idle).1

abbrev greet : ℤ → ℤ → Text → Exec (Daemon MessageReceiver) Bool
greet fd code msg = pure true

greet-IsQuiet : IsQuiet (pos 3) greet
greet-IsQuiet = IsQuiet-of_Keeps (pos 3) greet (λ first fd code msg. pure-Keeps true)

deal_read_event_hands_example :
    ((deal_read_event working (pos 7) (pos 3) idle).0 ≡ done true)
    × (interest waiting.trace (pos 3) (pos 7) ≡ some (out_events, data_ptr 0))
    × (block waiting.heap 0 ≡ some (message_of (pos 7) (codes "hi")))
deal_read_event_hands_example =
    deal_read_event_hands working idle (pos 7) (pos 3) 1 refl refl (omega arith) refl

deal_write_event-deal_read_event_example :
    deal_write_event working greet (pos 3) (data_ptr 0) waiting
    ≡ continue
        (greet (pos 7) (code_value success) (c_str (codes "hi")) waiting)
        (after_message working (pos 7) (pos 3) 0)
deal_write_event-deal_read_event_example =
    deal_write_event-deal_read_event working greet (pos 3) idle (pos 7) 1 refl refl (omega arith)

-- The handler failed, and the block was freed.
abbrev freed : Daemon MessageReceiver
freed = record waiting { heap = release waiting.heap 0 }

deal_write_event_again_example :
    (deal_write_event working failing (pos 3) (data_ptr 0) waiting ≡ (done false, freed))
    × (deal_write_event working failing (pos 3) (data_ptr 0) freed ≡ (fault use_after_free, freed))
    × (interest freed.trace (pos 3) (pos 7) ≡ interest waiting.trace (pos 3) (pos 7))
deal_write_event_again_example =
    deal_write_event_again working failing (pos 3) waiting waiting 0
      (message_of (pos 7) (codes "hi"))
      (deal_read_event_hands working idle (pos 7) (pos 3) 1 refl refl (omega arith) refl).2 refl

answered_lem :
    deal_write_event working greet (pos 3) (data_ptr 0) waiting
    ≡ (done true, (deal_write_event working greet (pos 3) (data_ptr 0) waiting).1)
unfolding deal_write_event deal_read_event epoll_ctl block release c_str
answered_lem = refl

deal_write_event-IsWf_example :
    IsWf (pos 3) (deal_write_event working greet (pos 3) (data_ptr 0) waiting).1
deal_write_event-IsWf_example =
    deal_write_event-IsWf working greet (pos 3) waiting
      (deal_write_event working greet (pos 3) (data_ptr 0) waiting).1 (pos 7) 0 out_events
      greet-IsQuiet (deal_read_event-IsWf working idle (pos 7) (pos 3) (fresh-IsWf _ (pos 3)))
      (deal_read_event_hands working idle (pos 7) (pos 3) 1 refl refl (omega arith) refl).1
      answered_lem
