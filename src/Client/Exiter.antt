-- ===== src/Client/Exiter.antt =====
-- client/processCommandLine/Exiter.h: class Exiter.
use single_terminal_login_sy.Base.{Bool, false, Option, none, some, List, if◌then◌else◌}
use single_terminal_login_sy.Base.Text.{Text, codes}
use single_terminal_login_sy.Base.Int.{ℤ, is_neg}
use single_terminal_login_sy.Codes.{logout}
use single_terminal_login_sy.Exec.{Exec, pure, crash, ◌>>=◌, exited}
use single_terminal_login_sy.Cjson.{Cjson}
use single_terminal_login_sy.Daemon.System.{Kernel, sys_write}
use single_terminal_login_sy.Client.Socket.{Client, call}
use single_terminal_login_sy.Client.Command.{count_params, one_param, user_message}

module _ (j : Cjson) (sys : Kernel) where
  -- none is a return of -1
  unfoldable pub get_json_string_from_params : List Text → Exec Client (Option Text)
  get_json_string_from_params params = do
    _ ← count_params params
    one_param sys (codes "please input exit username!")
        (λ user. j.print_unformatted (user_message j logout user)) params

  -- A message that was sent ends the process.
  abbrev pub send_and_exit : ℤ → Option Text → Exec Client Bool
  send_and_exit client_socket none = pure false
  send_and_exit client_socket (some message) = do
    sent ← call sys (sys_write client_socket message)
    if is_neg sent.ret then pure false else crash exited

  unfoldable pub process_command_line : ℤ → List Text → Exec Client Bool
  process_command_line client_socket params = do
    message ← get_json_string_from_params params
    send_and_exit client_socket message
