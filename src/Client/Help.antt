-- ===== src/Client/Help.antt =====
-- client/processCommandLine/Help.h: class Help.
use single_terminal_login_sy.Base.{Bool, true}
use single_terminal_login_sy.Base.Text.{Text, codes}
use single_terminal_login_sy.Exec.{Exec, pure, ◌>>◌}
use single_terminal_login_sy.Daemon.System.{Kernel}
use single_terminal_login_sy.Client.Socket.{Client, print}

abbrev pub bar : Text
bar =
    codes
      "###############################################################################################################"

abbrev pub help_line : Text
help_line =
    codes
      "######### help/? : Show all legal commands                                        #############################"

abbrev pub exit_line : Text
exit_line =
    codes
      "######### exit   : logout then exit client. for example:exit username             #############################"

abbrev pub regist_line : Text
regist_line =
    codes
      "######### regist : user regist. for example: regist username password             #############################"

abbrev pub login_line : Text
login_line =
    codes
      "######### login  : login server.for example: login username password              #############################"

abbrev pub logout_line : Text
logout_line =
    codes
      "######### logout : logout user. for example: logout username                      #############################"

module _ (sys : Kernel) where
  unfoldable pub process_help : Exec Client (Unit {0})
  process_help = do
    print sys bar
    print sys help_line
    print sys exit_line
    print sys regist_line
    print sys login_line
    print sys logout_line
    print sys bar

  unfoldable pub process_command_line : Exec Client Bool
  process_command_line = do process_help; pure true
