-- ===== src/Loginer.antt =====
-- service/loginManager/login/loginer.cpp: class Loginer, over a copy of the service's SqlApi.
pub mod Parts
pub mod Step
pub mod Refine
pub mod Single
pub mod Terminal
pub mod Devices
pub mod Logout
use single_terminal_login_sy.Base.{
  ℕ, Bool, true, false, not, Option, none, some, List, [], ◌∷◌, length, ltb, ◌==◌, if◌then◌else◌,
}
use single_terminal_login_sy.Base.Text.{Text, codes}
use single_terminal_login_sy.Base.Int.{ℤ, pos, negsuc, eq_ℤ, to_int, to_ull}
use single_terminal_login_sy.Base.Decimal.{strtoul}
use single_terminal_login_sy.Codes.{
  Code, success, system_error, db_op_failed, username_or_passwd_error,
}
use single_terminal_login_sy.Exec.{Exec, pure, ◌>>=◌, ◌>>◌, require}
use single_terminal_login_sy.Mysql.{Mysql}
use single_terminal_login_sy.Mysql.Statements.{
  count_password_sql, count_active_sql, active_fd_sql, active_id_sql, insert_login_sql,
  logout_int_sql, logout_sql,
}
use single_terminal_login_sy.SqlApi.{
  SqlApi, MysqlResult, at, cells, select, get_result, insert, update,
}
use single_terminal_login_sy.SqlApi.Count.{select_count}

-- What processLogin hands back: its return value, true for 0, and the output parameters.
pub record LoginReply : Type 0 where
  pub ret : Bool
  pub logout_fd : ℤ
  pub code : Code
  pub msg : Text

pub record LogoutReply : Type 0 where
  pub ret : Bool
  pub code : Code
  pub msg : Text

abbrev pub refuse : Code → Text → LoginReply
refuse code msg = record { ret = false; logout_fd = negsuc 0; code = code; msg = msg }

abbrev pub accept : ℤ → LoginReply
accept fd = record { ret = true; logout_fd = fd; code = success; msg = codes "login success!" }

-- `count == 0 ? false : true`
abbrev pub is_nonzero : ℤ → Bool
is_nonzero n = not (eq_ℤ n (pos 0))

abbrev pub validity : Option ℤ → Option Bool
validity none = none
validity (some n) = some (is_nonzero n)

-- The early `return -1` of a function that returns bool is true.
abbrev pub presence : Option ℤ → Bool
presence none = true
presence (some n) = is_nonzero n

abbrev pub finish_first : Bool → LoginReply
finish_first true = accept (negsuc 0)
finish_first false = refuse db_op_failed (codes "system error: insert data into DB failed!")

-- `logoutFd` is set before the update and keeps its value when that fails.
abbrev pub finish_replace : ℤ → Bool → LoginReply
finish_replace old true = accept old
finish_replace old false = record {
  ret = false;
  logout_fd = old;
  code = system_error;
  msg = codes "system error: update DB data failed!";
}

abbrev pub logged_out : LogoutReply
logged_out = record { ret = true; code = success; msg = codes "logout success!" }

abbrev pub finish_logout : Bool → LogoutReply
finish_logout true = logged_out
finish_logout false = record {
  ret = false;
  code = db_op_failed;
  msg = codes "SYSTEM ERROR: update data to DB failed!";
}

module _ {m : Mysql} where
  -- none is a return of -1, otherwise `isValid`
  unfoldable pub is_valid_user_name_and_pass_word : Text → Text → Exec (SqlApi m) (Option Bool)
  is_valid_user_name_and_pass_word user pass = do
    n ← select_count (count_password_sql user pass)
    pure (validity n)

  unfoldable pub is_already_logined : Text → Exec (SqlApi m) Bool
  is_already_logined user = do n ← select_count (count_active_sql user); pure (presence n)

  -- `now` is what time(NULL) returns.
  unfoldable pub login : Text → Text → ℤ → ℕ → Exec (SqlApi m) Bool
  login user pass fd now = insert (insert_login_sql user pass fd now)

  -- `int id`, `int fd`, and `fuiId = id`.
  abbrev pub read_fd : MysqlResult → Exec (SqlApi m) (Option (ℤ × ℕ))
  read_fd r = do
    require (r.rows_count == 1)
    require (r.fields_count == 2)
    row ← at r.mysql_row_vec 0
    values ← cells row
    id ← at values 0
    fd ← at values 1
    pure (some (to_int (strtoul fd), to_ull (to_int (strtoul id))))

  abbrev pub selected_fd : Bool → Exec (SqlApi m) (Option (ℤ × ℕ))
  selected_fd false = pure none
  selected_fd true = do r ← get_result; read_fd r

  -- The descriptor and FuiId of the row that is logged in.
  unfoldable pub get_already_logined_client_fd : Text → Exec (SqlApi m) (Option (ℤ × ℕ))
  get_already_logined_client_fd user = do ran ← select (active_fd_sql user); selected_fd ran

  unfoldable pub set_logout_status_then_login : ℕ → Text → Text → ℤ → ℕ → Exec (SqlApi m) Bool
  set_logout_status_then_login fui_id user pass fd now = do
    ran ← update (logout_sql fui_id)
    if ran then login user pass fd now else pure false

  module _ (user pass : Text) (fd : ℤ) (now : ℕ) where
    abbrev pub replace_device : Option (ℤ × ℕ) → Exec (SqlApi m) LoginReply
    replace_device none =
        pure (refuse system_error (codes "system error: Get already logined client fd failed!"))
    replace_device (some (old, fui_id)) = do
      ran ← set_logout_status_then_login fui_id user pass fd now
      pure (finish_replace old ran)

    abbrev pub enter : Bool → Exec (SqlApi m) LoginReply
    enter false = do ran ← login user pass fd now; pure (finish_first ran)
    enter true = do found ← get_already_logined_client_fd user; replace_device found

    abbrev pub admit : Option Bool → Exec (SqlApi m) LoginReply
    admit none = pure (refuse system_error (codes "select DB data failed!"))
    admit (some false) =
        pure (refuse username_or_passwd_error (codes "userName or passWord error!"))
    admit (some true) = do present ← is_already_logined user; enter present

    unfoldable pub process_login : Exec (SqlApi m) LoginReply
    process_login = do valid ← is_valid_user_name_and_pass_word user pass; admit valid

  abbrev pub leave : MysqlResult → Exec (SqlApi m) LogoutReply
  leave r =
      if ltb 0 r.rows_count
      then (do
        require (r.fields_count == 1)
        row ← at r.mysql_row_vec 0
        values ← cells row
        id ← at values 0
        ran ← update (logout_int_sql (to_int (strtoul id)))
        pure (finish_logout ran))
      else pure logged_out

  abbrev pub selected_id : Bool → Exec (SqlApi m) LogoutReply
  selected_id false = pure (record {
    ret = false;
    code = db_op_failed;
    msg = codes "SYSTEM ERROR: select data from DB failed!";
  })
  selected_id true = do r ← get_result; leave r

  unfoldable pub process_logout : Text → Exec (SqlApi m) LogoutReply
  process_logout user = do ran ← select (active_id_sql user); selected_id ran
