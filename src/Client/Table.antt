-- ===== src/Client/Table.antt =====
-- client/main/commandLine.h and commandLine.cpp: the table of the commands and the functions on it.
use single_terminal_login_sy.Base.{
  Bool, true, false, Option, none, some, List, [], ◌∷◌, if◌then◌else◌,
}
use single_terminal_login_sy.Base.Text.{Text, codes, text_eq}
use single_terminal_login_sy.Base.Int.{ℤ}
use single_terminal_login_sy.Exec.{Exec, pure, ◌>>=◌}
use single_terminal_login_sy.Cjson.{Cjson}
use single_terminal_login_sy.Daemon.System.{Kernel}
use single_terminal_login_sy.Client.Socket.{Client}
use single_terminal_login_sy.Client.Login as Login
use single_terminal_login_sy.Client.Regist as Regist
use single_terminal_login_sy.Client.Logout as Logout
use single_terminal_login_sy.Client.Exiter as Exiter
use single_terminal_login_sy.Client.Help as Help

-- The objects help, login, logoutCmd, exiter and registCmd.
pub data CmdImplClass : Type 0 where
  help login logout_cmd exiter regist_cmd : CmdImplClass

-- my_cmd_t
pub record MyCmd : Type 0 where
  pub cmd : Text
  pub cmd_impl_class : CmdImplClass
  pub cmd_desc : Text

abbrev pub command : Text → CmdImplClass → Text → MyCmd
command cmd impl desc = record { cmd = cmd; cmd_impl_class = impl; cmd_desc = desc }

-- The table without its last row, which is null.
abbrev pub my_cmds : List MyCmd
my_cmds =
    command (codes "help") help (codes "help user use cmd.")
    ∷ command (codes "?") help (codes "help user use cmd.")
    ∷ command (codes "login") login (codes "login server.")
    ∷ command (codes "logout") logout_cmd (codes "logout user.")
    ∷ command (codes "exit") exiter (codes "logout then exit client.")
    ∷ command (codes "regist") regist_cmd (codes "user regist.")
    ∷ []

-- The loop over the table that isLegalCmd, getCmdImplClass and getCmdImplDesc share.
unfoldable pub find_cmd : List MyCmd → Text → Option MyCmd
find_cmd [] cmd = none
find_cmd (c ∷ cs) cmd = let rest = find_cmd cs cmd in if text_eq cmd c.cmd then some c else rest

abbrev pub is_found : Option MyCmd → Bool
is_found none = false
is_found (some c) = true

abbrev pub impl_of : Option MyCmd → Option CmdImplClass
impl_of none = none
impl_of (some c) = some c.cmd_impl_class

abbrev pub desc_of : Option MyCmd → Option Text
desc_of none = none
desc_of (some c) = some c.cmd_desc

abbrev pub is_legal_cmd : Text → Bool
is_legal_cmd cmd = is_found (find_cmd my_cmds cmd)

-- none is NULL
abbrev pub get_cmd_impl_class : Text → Option CmdImplClass
get_cmd_impl_class cmd = impl_of (find_cmd my_cmds cmd)

abbrev pub get_cmd_impl_desc : Text → Option Text
get_cmd_impl_desc cmd = desc_of (find_cmd my_cmds cmd)

module _ (j : Cjson) (sys : Kernel) where
  -- The virtual call.
  abbrev pub process_command_line : CmdImplClass → ℤ → List Text → Exec Client Bool
  process_command_line help client_socket params = Help.process_command_line sys
  process_command_line login client_socket params =
      Login.process_command_line j sys client_socket params
  process_command_line logout_cmd client_socket params =
      Logout.process_command_line j sys client_socket params
  process_command_line exiter client_socket params =
      Exiter.process_command_line j sys client_socket params
  process_command_line regist_cmd client_socket params =
      Regist.process_command_line j sys client_socket params

  abbrev pub run_class : ℤ → List Text → Option CmdImplClass → Exec Client Bool
  run_class client_socket params none = do _ ← Help.process_command_line sys; pure false
  run_class client_socket params (some impl) = process_command_line impl client_socket params

  unfoldable pub process_cmd : ℤ → Text → List Text → Exec Client Bool
  process_cmd client_socket cmd params = run_class client_socket params (get_cmd_impl_class cmd)
