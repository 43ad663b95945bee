-- ===== src/Client/Main/Notices.antt =====
-- client/main/main.cpp, justRecvMessage: when a message from the server ends the client.
use single_terminal_login_sy.Base.{
  ℕ, ◌<◌, ◌≡◌, ◌≢◌, refl, ap, ◌∙◌, Bool, true, false, [], ◌∷◌, ltb, if◌then◌else◌, arith,
  Bool-cases, inl, inr,
}
use single_terminal_login_sy.Base.Text.{Text, codes, c_str, text_eq, NoNul, c_str_of_NoNul}
use single_terminal_login_sy.Base.Int.{pos}
use single_terminal_login_sy.Exec.{
  Outcome, done, fault, continue, crash, pure, ◌>>=◌, out_of_bounds, exited,
}
use single_terminal_login_sy.Daemon.System.{Kernel, Reply, sys_read, sys_usleep}
use single_terminal_login_sy.Client.Socket.{Client, called, call}
use single_terminal_login_sy.Client.Main.{
  received, take_message, just_recv_message, max_message_size,
}

-- The client's process goes on, or ends by exit(0).
abbrev pub ending : Bool → Outcome (Unit {0})
ending true = fault exited
ending false = done tt

module _ (sys : Kernel) where
  abbrev pub got : Client → Reply
  got s = sys s.trace (sys_read s.client_socket max_message_size)

  abbrev pub after_read : Client → Client
  after_read s = called sys (sys_read s.client_socket max_message_size) s

  abbrev pause : Outcome (Unit {0}) × Client → Outcome (Unit {0}) × Client
  pause o = continue o (λ _. do _ ← call sys (sys_usleep 50); pure tt)

  take_lem :
      (message : Text) (s : Client)
      → message ≢ []
      → (pause (take_message sys message s)).0 ≡ ending (text_eq message (codes "logout"))
  take_lem [] s n = absurd (n refl)
  take_lem (c ∷ message) s n = elim (Bool-cases (text_eq (c ∷ message) (codes "logout"))) [
    | inl e ↦ rw e refl
    | inr e ↦ rw e refl
  ]

  -- For a read that gives a text that is not empty, without NUL and shorter than the buffer, the
  -- receiving thread ends the client when the text is "logout", and goes on with every other text,
  -- also with one that only begins with "logout".
  pub just_recv_message_ends :
      (s : Client) (n : ℕ)
      → (got s).ret ≡ pos n
      → n < max_message_size
      → NoNul (got s).bytes
      → (got s).bytes ≢ []
      → (just_recv_message sys s).0 ≡ ending (text_eq (got s).bytes (codes "logout"))
  unfolding just_recv_message
  just_recv_message_ends s n e lt clean full =
      ap (λ z. (pause (received sys (got s).bytes z (after_read s))).0) e
      ∙ ap
          (λ b.
            (pause (
              (if b then take_message sys (c_str (got s).bytes) else crash out_of_bounds)
                (after_read s))).0)
          short
      ∙ ap (λ t. (pause (take_message sys t (after_read s))).0) (c_str_of_NoNul (got s).bytes clean)
      ∙ take_lem (got s).bytes (after_read s) full
    where
      short : ltb n max_message_size ≡ true
      short = ground arith
