-- ===== src/Client/Main.antt =====
-- client/main/main.cpp: the start, and one round of each of the two threads.
pub mod Lines
pub mod Notices
use single_terminal_login_sy.Base.{
  ℕ, Bool, true, false, Option, none, some, List, [], ◌∷◌, length, ltb, leb, if◌then◌else◌,
}
use single_terminal_login_sy.Base.Text.{Text, codes, c_str, text_eq}
use single_terminal_login_sy.Base.Int.{ℤ, pos, negsuc, is_neg, eq_ℤ}
use single_terminal_login_sy.Exec.{Exec, pure, crash, ◌>>=◌, ◌>>◌, out_of_bounds, exited}
use single_terminal_login_sy.Cjson.{Cjson}
use single_terminal_login_sy.Daemon.System.{
  Kernel, Reply, sys_read, sys_usleep, sys_pthread_create, sys_fgets,
}
use single_terminal_login_sy.Client.Words.{str2vec}
use single_terminal_login_sy.Client.Socket.{
  Client, socket, set_socket, call, print, get_tcp_socket, set_non_blocking,
}
use single_terminal_login_sy.Client.Command.{param_slots}
use single_terminal_login_sy.Client.Help as Help
use single_terminal_login_sy.Client.Table.{is_legal_cmd, process_cmd}

abbrev pub max_message_size : ℕ
max_message_size = 10240

abbrev pub max_cmd_len : ℕ
max_cmd_len = 128

-- `cmds[0] = '\0'`, then fgets, which stores nothing when it returns NULL.
abbrev pub line_of : Reply → Text
line_of r = if eq_ℤ r.ret (pos 0) then [] else c_str r.bytes

-- `cmds[strlen(cmds) - 1] = '\0'`; none is a store in front of the array.
unfoldable pub chomp : Text → Option Text
chomp [] = none
chomp (c ∷ []) = some []
chomp (c ∷ d ∷ s) = elim (chomp (d ∷ s)) [ none ↦ none | some t ↦ some (c ∷ t) ]

abbrev pub words_of : Option (List Text) → List Text
words_of none = []
words_of (some ws) = ws

-- The notice to the user, in UTF-8: the account was logged in on another device, this one logs out.
abbrev pub logged_out_notice : Text
logged_out_notice =
    230 ∷ 130 ∷ 168 ∷ 231 ∷ 154 ∷ 132 ∷ 232 ∷ 180 ∷ 166 ∷ 229 ∷ 143 ∷ 183 ∷ 229 ∷ 156 ∷ 168 ∷ 229
    ∷ 143 ∷ 166 ∷ 228 ∷ 184 ∷ 128 ∷ 229 ∷ 143 ∷ 176 ∷ 232 ∷ 174 ∷ 190 ∷ 229 ∷ 164 ∷ 135 ∷ 231 ∷ 153
    ∷ 187 ∷ 229 ∷ 189 ∷ 149 ∷ 239 ∷ 188 ∷ 140 ∷ 229 ∷ 189 ∷ 147 ∷ 229 ∷ 137 ∷ 141 ∷ 232 ∷ 174 ∷ 190
    ∷ 229 ∷ 164 ∷ 135 ∷ 233 ∷ 128 ∷ 128 ∷ 229 ∷ 135 ∷ 186 ∷ 231 ∷ 153 ∷ 187 ∷ 229 ∷ 189 ∷ 149 ∷ 33
    ∷ []

module _ (sys : Kernel) where
  abbrev pub say_logout : Exec Client (Unit {0})
  say_logout = do print sys logged_out_notice; crash exited

  -- What justRecvMessage does with a message.
  abbrev pub take_message : Text → Exec Client (Unit {0})
  take_message [] = pure tt
  take_message (c ∷ message) = do
    print sys (c ∷ message)
    if text_eq (c ∷ message) (codes "logout") then say_logout else pure tt

  -- `message[ret] = '\0'` needs ret from 0 to below the length of the array.
  abbrev pub received : Text → ℤ → Exec Client (Unit {0})
  received bytes (negsuc n) = crash out_of_bounds
  received bytes (pos n) =
      if ltb n max_message_size then take_message (c_str bytes) else crash out_of_bounds

  -- One round of justRecvMessage.
  unfoldable pub just_recv_message : Exec Client (Unit {0})
  just_recv_message = do
    fd ← socket
    r ← call sys (sys_read fd max_message_size)
    received r.bytes r.ret
    _ ← call sys (sys_usleep 50)
    pure tt

  abbrev pub open_socket : Option ℤ → Exec Client Bool
  open_socket none = do set_socket (negsuc 0); pure false
  open_socket (some fd) = do
    set_socket fd
    _ ← set_non_blocking sys fd
    made ← call sys sys_pthread_create
    if is_neg made.ret
        then (do print sys (codes "create pthread failed!"); pure false)
        else pure true

  -- main up to its loop; false is a return of -1.
  unfoldable pub start : Exec Client Bool
  start = do fd ← get_tcp_socket sys; open_socket fd

  module _ (j : Cjson) where
    abbrev pub wrong_command : Exec Client (Unit {0})
    wrong_command = do
      print sys (codes "command error! Please refer to the following introduction:")
      _ ← Help.process_command_line sys
      pure tt

    abbrev pub run_cmd : Text → List Text → Exec Client (Unit {0})
    run_cmd cmd params =
        if is_legal_cmd cmd
        then (do fd ← socket; _ ← process_cmd j sys fd cmd params; pure tt)
        else wrong_command

    -- `cmd_params_v[0]`, and the copy to params, which has ten slots.
    abbrev pub run_words : List Text → Exec Client (Unit {0})
    run_words [] = crash out_of_bounds
    run_words (cmd ∷ params) =
        if leb (length params) param_slots then run_cmd cmd params else crash out_of_bounds

    abbrev pub run_line : Option Text → Exec Client (Unit {0})
    run_line none = crash out_of_bounds
    run_line (some []) = pure tt
    run_line (some (c ∷ s)) = run_words (words_of (str2vec (c ∷ s) (codes " ")))

    -- One round of the loop of main.
    unfoldable pub command_round : Exec Client (Unit {0})
    command_round = do r ← call sys (sys_fgets max_cmd_len); run_line (chomp (line_of r))
