-- ===== src/Receiver/Loginer.antt =====
-- service/messageReceiver/loginer.cpp: an older class Loginer, which the receiver's Makefile compiles in. Its
-- members but processLogin and noticeLogout have the text of service/loginManager/login/loginer.cpp, and
-- are taken from its model.
pub mod Same
use single_terminal_login_sy.Base.{ℕ, Bool, true, false, not, Option, none, some, ◌∷◌}
use single_terminal_login_sy.Base.Text.{Text, codes}
use single_terminal_login_sy.Base.Int.{ℤ, is_neg}
use single_terminal_login_sy.Codes.{
  Code, success, system_error, db_op_failed, username_or_passwd_error,
}
use single_terminal_login_sy.Exec.{Exec, pure, crash, ◌>>=◌, wild_pointer}
use single_terminal_login_sy.Mysql.{Mysql}
use single_terminal_login_sy.SqlApi.{SqlApi}
use single_terminal_login_sy.Loginer as Loginer
use single_terminal_login_sy.Daemon.System.{Kernel, Trace, sys_write}

-- The member _sqlApi, and the calls to the system so far.
pub record Noticer (m : Mysql) : Type 0 where
  pub sql_api : SqlApi m
  pub trace : Trace

-- The return value of processLogin, true for 0, and its output parameters.
pub record NoticedReply : Type 0 where
  pub ret : Bool
  pub code : Code
  pub msg : Text

abbrev pub turn_away : Code → Text → NoticedReply
turn_away code msg = record { ret = false; code = code; msg = msg }

abbrev pub let_in : NoticedReply
let_in = record { ret = true; code = success; msg = codes "login success!" }

abbrev pub after_insert : Bool → NoticedReply
after_insert true = let_in
after_insert false = turn_away db_op_failed (codes "system error: insert data into DB failed!")

abbrev pub after_update : Bool → NoticedReply
after_update true = let_in
after_update false = turn_away system_error (codes "system error: update DB data failed!")

module _ {m : Mysql} where
  abbrev pub with_sql : {A : Type 0} → Exec (SqlApi m) A → Exec (Noticer m) A
  with_sql run s = let (o, sql) = run s.sql_api in (o, record s { sql_api = sql })

  module _ (sys : Kernel) where
    abbrev pub notice_logout : ℤ → Exec (Noticer m) Bool
    notice_logout fd s =
        let call = sys_write fd (codes "logout") in
        let r = sys s.trace call in
        pure (not (is_neg r.ret)) (record s { trace = (call, r) ∷ s.trace })

    module _ (user pass : Text) (fd : ℤ) (now : ℕ) where
      -- The log line of a failed notice prints the descriptor with %s: a read at that address.
      abbrev pub after_notice : ℕ → Bool → Exec (Noticer m) NoticedReply
      after_notice fui_id false = crash wild_pointer
      after_notice fui_id true = do
        ran ← with_sql (Loginer.set_logout_status_then_login fui_id user pass fd now)
        pure (after_update ran)

      abbrev pub force_out : Option (ℤ × ℕ) → Exec (Noticer m) NoticedReply
      force_out none =
          pure
            (turn_away system_error (codes "system error: Get already logined client fd failed!"))
      force_out (some (old, fui_id)) = do told ← notice_logout old; after_notice fui_id told

      abbrev pub come_in : Bool → Exec (Noticer m) NoticedReply
      come_in false = do ran ← with_sql (Loginer.login user pass fd now); pure (after_insert ran)
      come_in true = do
        found ← with_sql (Loginer.get_already_logined_client_fd user)
        force_out found

      abbrev pub let_pass : Option Bool → Exec (Noticer m) NoticedReply
      let_pass none = pure (turn_away system_error (codes "select DB data failed!"))
      let_pass (some false) =
          pure (turn_away username_or_passwd_error (codes "userName or passWord error!"))
      let_pass (some true) = do
        present ← with_sql (Loginer.is_already_logined user)
        come_in present

      unfoldable pub process_login : Exec (Noticer m) NoticedReply
      process_login = do
        valid ← with_sql (Loginer.is_valid_user_name_and_pass_word user pass)
        let_pass valid
