-- ===== src/Register.antt =====
-- service/loginManager/regist/register.cpp: class Register, over a copy of the service's SqlApi.
pub mod Outcomes
use single_terminal_login_sy.Base.{ℕ, Bool, true, false, Option, none, some, ◌++◌}
use single_terminal_login_sy.Base.Text.{Text, codes}
use single_terminal_login_sy.Codes.{Code, success, db_op_failed, already_regist}
use single_terminal_login_sy.Exec.{Exec, pure, ◌>>=◌}
use single_terminal_login_sy.Mysql.{Mysql}
use single_terminal_login_sy.Mysql.Statements.{count_user_sql, insert_account_sql}
use single_terminal_login_sy.SqlApi.{SqlApi, insert}
use single_terminal_login_sy.SqlApi.Count.{select_count}
use single_terminal_login_sy.Loginer.{validity}

pub record RegistReply : Type 0 where
  pub ret : Bool
  pub code : Code
  pub msg : Text

abbrev pub insert_failed : RegistReply
insert_failed = record {
  ret = false;
  code = db_op_failed;
  msg = codes "system error: insert data into DB failed!";
}

-- `msg += …`: the caller's text stays in front.
abbrev pub finish_regist : Text → Bool → RegistReply
finish_regist msg false = insert_failed
finish_regist msg true = record { ret = true; code = success; msg = msg ++ codes "regist success!" }

module _ {m : Mysql} where
  -- none is a return of -1, otherwise `isAlreadyRegistFlag`
  unfoldable pub is_already_regist : Text → Exec (SqlApi m) (Option Bool)
  is_already_regist user = do n ← select_count (count_user_sql user); pure (validity n)

  unfoldable pub regist : Text → Text → ℕ → Exec (SqlApi m) Bool
  regist user pass now = insert (insert_account_sql user pass now)

  abbrev pub regist_new : Text → Text → ℕ → Text → Option Bool → Exec (SqlApi m) RegistReply
  regist_new user pass now msg none = pure insert_failed
  regist_new user pass now msg (some true) =
      pure (record { ret = true; code = already_regist; msg = user ++ codes " already regist!" })
  regist_new user pass now msg (some false) = do
    ran ← regist user pass now
    pure (finish_regist msg ran)

  unfoldable pub process_regist : Text → Text → ℕ → Text → Exec (SqlApi m) RegistReply
  process_regist user pass now msg = do
    flag ← is_already_regist user
    regist_new user pass now msg flag
