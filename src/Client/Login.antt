-- ===== src/Client/Login.antt =====
-- client/processCommandLine/Login.h: class Login.
use single_terminal_login_sy.Base.{Bool, Option, List}
use single_terminal_login_sy.Base.Text.{Text, codes}
use single_terminal_login_sy.Base.Int.{ℤ}
use single_terminal_login_sy.Codes.{login}
use single_terminal_login_sy.Exec.{Exec, ◌>>=◌}
use single_terminal_login_sy.Cjson.{Cjson}
use single_terminal_login_sy.Daemon.System.{Kernel}
use single_terminal_login_sy.Client.Socket.{Client}
use single_terminal_login_sy.Client.Command.{
  count_params, two_params, credentials_message, send_and_show,
}

module _ (j : Cjson) (sys : Kernel) where
  -- none is a return of -1
  unfoldable pub get_json_string_from_params : List Text → Exec Client (Option Text)
  get_json_string_from_params params = do
    _ ← count_params params
    two_params sys (codes "please input login username password!")
        (λ user pass. j.print_unformatted (credentials_message j login user pass)) params

  unfoldable pub process_command_line : ℤ → List Text → Exec Client Bool
  process_command_line client_socket params = do
    message ← get_json_string_from_params params
    send_and_show sys client_socket message
