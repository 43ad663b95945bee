-- ===== src/Client/Command.antt =====
-- client/processCommandLine: what the classes for the commands have in common. `params` is an array of
-- ten pointers, null where there is no parameter: the list of the parameters there are.
use single_terminal_login_sy.Base.{
  ℕ, Bool, true, false, Option, none, some, List, [], ◌∷◌, length, ltb, if◌then◌else◌,
}
use single_terminal_login_sy.Base.Text.{Text, codes, c_str}
use single_terminal_login_sy.Base.Int.{ℤ, pos, negsuc, is_neg}
use single_terminal_login_sy.Codes.{MessageType, type_value}
use single_terminal_login_sy.Exec.{Exec, pure, crash, ◌>>=◌, ◌>>◌, out_of_bounds}
use single_terminal_login_sy.Cjson.{Cjson}
use single_terminal_login_sy.Daemon.System.{Kernel, sys_read, sys_write}
use single_terminal_login_sy.Client.Socket.{Client, call, print}

abbrev pub message_max_len : ℕ
message_max_len = 10240

-- const char* params[10]
abbrev pub param_slots : ℕ
param_slots = 10

-- `for(; params[i]; ++i)`, which needs a null pointer in the array.
unfoldable pub count_params : List Text → Exec Client ℕ
count_params params =
    if ltb (length params) param_slots then pure (length params) else crash out_of_bounds

module _ (j : Cjson) where
  abbrev pub typed_root : MessageType → j.Item
  typed_root t =
      j.add_item_to_object j.create_object (codes "messageType") (j.create_number (type_value t))

  abbrev pub user_item : Text → j.Item
  user_item user = j.add_item_to_object j.create_object (codes "userName") (j.create_string user)

  abbrev pub credentials_item : Text → Text → j.Item
  credentials_item user pass =
      j.add_item_to_object (user_item user) (codes "passWord") (j.create_string pass)

  -- The message of a login and of a registration, and that of a logout.
  abbrev pub credentials_message : MessageType → Text → Text → j.Item
  credentials_message t user pass =
      j.add_item_to_object (typed_root t) (codes "message") (credentials_item user pass)

  abbrev pub user_message : MessageType → Text → j.Item
  user_message t user = j.add_item_to_object (typed_root t) (codes "message") (user_item user)

module _ (sys : Kernel) where
  -- `i != 2`: print how the command is used, and return -1.
  abbrev pub two_params : Text → (Text → Text → Text) → List Text → Exec Client (Option Text)
  two_params usage make (user ∷ pass ∷ []) = pure (some (make user pass))
  two_params usage make (user ∷ pass ∷ more ∷ rest) = do print sys usage; pure none
  two_params usage make (user ∷ []) = do print sys usage; pure none
  two_params usage make [] = do print sys usage; pure none

  abbrev pub one_param : Text → (Text → Text) → List Text → Exec Client (Option Text)
  one_param usage make (user ∷ []) = pure (some (make user))
  one_param usage make (user ∷ more ∷ rest) = do print sys usage; pure none
  one_param usage make [] = do print sys usage; pure none

  -- `buf[ret] = '\0'` needs ret below the length of the array.
  abbrev pub show_reply : Text → ℤ → Exec Client Bool
  show_reply bytes (negsuc n) = pure false
  show_reply bytes (pos n) =
      if ltb n message_max_len then (do print sys (c_str bytes); pure true) else crash out_of_bounds

  -- Send a message and show what the next read gives.
  abbrev pub send_and_show : ℤ → Option Text → Exec Client Bool
  send_and_show client_socket none = pure false
  send_and_show client_socket (some message) = do
    sent ← call sys (sys_write client_socket message)
    if is_neg sent.ret
        then pure false
        else (do r ← call sys (sys_read client_socket message_max_len); show_reply r.bytes r.ret)
