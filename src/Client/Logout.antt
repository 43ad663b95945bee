-- ===== src/Client/Logout.antt =====
-- client/processCommandLine/Logout.h: class LogoutCmd.
use single_terminal_login_sy.Base.{Bool, Option, List}
use single_terminal_login_sy.Base.Text.{Text, codes}
use single_terminal_login_sy.Base.Int.{ℤ}
use single_terminal_login_sy.Codes.{logout}
use single_terminal_login_sy.Exec.{Exec, ◌>>=◌}
use single_terminal_login_sy.Cjson.{Cjson}
use single_terminal_login_sy.Daemon.System.{Kernel}
use single_terminal_login_sy.Client.Socket.{Client}
use single_terminal_login_sy.Client.Command.{count_params, one_param, user_message, send_and_show}

module _ (j : Cjson) (sys : Kernel) where
  -- none is a return of -1
  unfoldable pub get_json_string_from_params : List Text → Exec Client (Option Text)
  get_json_string_from_params params = do
    _ ← count_params params
    one_param sys (codes "please input exit username!")
        (λ user. j.print_unformatted (user_message j logout user)) params

  unfoldable pub process_command_line : ℤ → List Text → Exec Client Bool
  process_command_line client_socket params = do
    message ← get_json_string_from_params params
    send_and_show sys client_socket message
