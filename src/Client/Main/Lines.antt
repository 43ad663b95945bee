-- ===== src/Client/Main/Lines.antt =====
-- client/main/main.cpp, the loop of main: what a line typed at the device does.
use single_terminal_login_sy.Base.{
  inl, inr, ltb, Bool-cases, ℕ, ◌<◌, ◌≡◌, ◌≢◌, refl, ap, ◌∙◌, false, some, List, [], ◌∷◌, ◌++◌,
  length, leb, if◌then◌else◌, arith,
}
use single_terminal_login_sy.Base.Text.{c_str, Text, codes, NoNul, c_str_of_NoNul, text_eq}
use single_terminal_login_sy.Base.Int.{ℤ, negsuc, is_neg, pos, eq_ℤ}
use single_terminal_login_sy.Codes.{login}
use single_terminal_login_sy.Exec.{Outcome, done, pure, crash, fault, ◌>>=◌, out_of_bounds}
use single_terminal_login_sy.Cjson.{Cjson}
use single_terminal_login_sy.Daemon.System.{
  sys_write, sys_read, sys_print, Kernel, Reply, sys_fgets,
}
use single_terminal_login_sy.Client.Words.{str2vec}
use single_terminal_login_sy.Client.Words.Reference.{join, AllLack}
use single_terminal_login_sy.Client.Words.Laws.{str2vec-join}
use single_terminal_login_sy.Client.Socket.{Client, called}
use single_terminal_login_sy.Client.Command.{
  show_reply, param_slots, credentials_message, send_and_show, count_params,
}
use single_terminal_login_sy.Client.Login as Login
use single_terminal_login_sy.Client.Table.{find_cmd, process_cmd}
use single_terminal_login_sy.Client.Main.{
  chomp, line_of, words_of, run_cmd, run_words, run_line, command_round, max_cmd_len,
}

pub chomp-append : (s : Text) (c : ℕ) → chomp (s ++ c ∷ []) ≡ some s
unfolding chomp
chomp-append [] c = refl
chomp-append (d ∷ []) c = refl
chomp-append (d ∷ e ∷ s) c = rw (chomp-append (e ∷ s) c) refl

-- fgets gave the words of a line, with a space between two of them and a newline at the end.
pub record IsLine (r : Reply) (ws : List Text) : Type 0 where
  pub read : eq_ℤ r.ret (pos 0) ≡ false
  pub bytes_are : r.bytes ≡ join b' ' ws ++ 10 ∷ []
  pub no_nul : NoNul r.bytes
  pub spaceless : AllLack b' ' ws
  pub some_word : ws ≢ []
  pub not_empty : join b' ' ws ≢ []

module _ (sys : Kernel) (j : Cjson) where
  abbrev pub typed : Client → Reply
  typed s = sys s.trace (sys_fgets max_cmd_len)

  abbrev pub after_line : Client → Client
  after_line s = called sys (sys_fgets max_cmd_len) s

  line_lem : (r : Reply) (ws : List Text) → IsLine r ws → line_of r ≡ join b' ' ws ++ 10 ∷ []
  line_lem r ws l = rw l.read (c_str_of_NoNul r.bytes l.no_nul ∙ l.bytes_are)

  run_line_lem :
      (line : Text) (ws : List Text) (s : Client)
      → line ≢ []
      → str2vec line (codes " ") ≡ some ws
      → run_line sys j (some line) s ≡ run_words sys j ws s
  run_line_lem [] ws s n e = absurd (n refl)
  run_line_lem (c ∷ line) ws s n e = ap (λ o. run_words sys j (words_of o) s) e

  -- When the user types words with single spaces between them, a round of main's loop takes the first
  -- as the command and the others as its parameters.
  pub command_round-words :
      (s : Client) (ws : List Text)
      → IsLine (typed s) ws
      → command_round sys j s ≡ run_words sys j ws (after_line s)
  unfolding command_round
  command_round-words s ws l =
      ap (λ t. run_line sys j (chomp t) (after_line s)) (line_lem (typed s) ws l)
      ∙ ap (λ o. run_line sys j o (after_line s)) (chomp-append (join b' ' ws) 10)
      ∙ run_line_lem (join b' ' ws) ws (after_line s) l.not_empty
          (str2vec-join b' ' ws l.some_word l.spaceless l.not_empty)

  -- A line of more than eleven words makes main store a pointer past the end of its array of ten, and
  -- before that it makes no call but the one that read the line.
  pub command_round_overflow :
      (s : Client) (cmd : Text) (params : List Text)
      → IsLine (typed s) (cmd ∷ params)
      → param_slots < length params
      → command_round sys j s ≡ (fault out_of_bounds, after_line s)
  command_round_overflow s cmd params l many =
      command_round-words s (cmd ∷ params) l
      ∙ ap (λ b. (if b then run_cmd sys j cmd params else crash out_of_bounds) (after_line s)) long
    where
      long : leb (length params) param_slots ≡ false
      long = ground arith

  -- What was read is printed, up to its first NUL, when the read did not fail.
  abbrev pub shown : Text → ℤ → Client → Outcome (Unit {0}) × Client
  shown bytes (negsuc n) s = (done tt, s)
  shown bytes (pos n) s =
      if ltb n 10240
      then (done tt, called sys (sys_print (c_str bytes ++ 10 ∷ [])) s)
      else (fault out_of_bounds, s)

  -- One read, and what it gave shown.
  abbrev pub read_and_shown : ℤ → Client → Outcome (Unit {0}) × Client
  read_and_shown fd s =
      shown (sys s.trace (sys_read fd 10240)).bytes (sys s.trace (sys_read fd 10240)).ret
        (called sys (sys_read fd 10240) s)

  -- One write of the text, and one read when the write did not fail.
  abbrev pub exchanged : ℤ → Text → Client → Outcome (Unit {0}) × Client
  exchanged fd text s =
      if is_neg (sys s.trace (sys_write fd text)).ret
      then (done tt, called sys (sys_write fd text) s)
      else read_and_shown fd (called sys (sys_write fd text) s)

  show_reply_lem :
      (bytes : Text) (n : ℤ) (s : Client)
      → (do _ ← show_reply sys bytes n; pure tt) s ≡ shown bytes n s
  show_reply_lem bytes (negsuc n) s = refl
  show_reply_lem bytes (pos n) s = elim (Bool-cases (ltb n 10240)) [
    | inl under ↦ rw under refl
    | inr over ↦ rw over refl
  ]

  send_and_show_lem :
      (fd : ℤ) (text : Text) (s : Client)
      → (do _ ← send_and_show sys fd (some text); pure tt) s ≡ exchanged fd text s
  send_and_show_lem fd text s = elim (Bool-cases (is_neg (sys s.trace (sys_write fd text)).ret)) [
    | inl failed ↦ rw failed refl
    | inr ok ↦ rw ok (
        show_reply_lem (sys (called sys (sys_write fd text) s).trace (sys_read fd 10240)).bytes
          (sys (called sys (sys_write fd text) s).trace (sys_read fd 10240)).ret
          (called sys (sys_read fd 10240) (called sys (sys_write fd text) s)))
  ]

  -- When the user types "login", a name and a password with single spaces, a round of main's loop
  -- writes the login message with this name and password to the server, once; a failed write ends
  -- the round, and otherwise the client reads up to 10240 bytes once and prints what it read up to
  -- the first NUL, but nothing when the read fails; and a read of 10240 bytes makes it write past
  -- the end of its buffer.
  pub command_round-login :
      (s : Client) (user pass : Text)
      → IsLine (typed s) (codes "login" ∷ user ∷ pass ∷ [])
      → command_round sys j s
        ≡ exchanged s.client_socket
            (j.print_unformatted (credentials_message j login user pass))
            (after_line s)
  unfolding process_cmd find_cmd text_eq Login.process_command_line
      Login.get_json_string_from_params count_params
  command_round-login s user pass l =
      command_round-words s (codes "login" ∷ user ∷ pass ∷ []) l
      ∙ send_and_show_lem s.client_socket
          (j.print_unformatted (credentials_message j login user pass)) (after_line s)
