-- ===== src/Receiver/Register.antt =====
-- service/messageReceiver/register.cpp: an older class Register, which the receiver's Makefile compiles in.
-- isAlreadyRegist and regist have the text of service/loginManager/regist/register.cpp, and are taken from
-- its model; the text of a success differs.
use single_terminal_login_sy.Base.{ℕ, ◌≡◌, refl, Bool, true, false, Option, none, some, ◌++◌}
use single_terminal_login_sy.Base.Text.{Text, codes}
use single_terminal_login_sy.Codes.{Code, success, already_regist}
use single_terminal_login_sy.Exec.{Exec, on_done, Outcome, done, fault, continue, pure, ◌>>=◌}
use single_terminal_login_sy.Mysql.{Mysql}
use single_terminal_login_sy.SqlApi.{SqlApi}
use single_terminal_login_sy.Register as Register
use single_terminal_login_sy.Register.{RegistReply, insert_failed, is_already_regist, regist}

abbrev pub after_regist : Text → Bool → RegistReply
after_regist msg false = insert_failed
after_regist msg true = record { ret = true; code = success; msg = msg ++ codes "regist success." }

module _ {m : Mysql} (user pass : Text) (now : ℕ) (msg : Text) where
  abbrev pub add_account : Option Bool → Exec (SqlApi m) RegistReply
  add_account none = pure insert_failed
  add_account (some true) =
      pure (record { ret = true; code = already_regist; msg = user ++ codes " already regist!" })
  add_account (some false) = do ran ← regist user pass now; pure (after_regist msg ran)

  unfoldable pub process_regist : Exec (SqlApi m) RegistReply
  process_regist = do flag ← is_already_regist user; add_account flag

-- The return value and the code.
abbrev code_of : RegistReply → Bool × Code
code_of r = (r.ret, r.code)

abbrev SameCode :
    {m : Mysql} → Outcome RegistReply × SqlApi m → Outcome RegistReply × SqlApi m → Type 0
SameCode o p = (on_done code_of o.0 ≡ on_done code_of p.0) × (o.1 ≡ p.1)

module _ {m : Mysql} where
  go_on :
      {A : Type 0} (k h : A → Exec (SqlApi m) RegistReply) (o : Outcome A × SqlApi m)
      → ((a : A) (s : SqlApi m) → SameCode (k a s) (h a s))
      → SameCode (continue o k) (continue o h)
  go_on k h (done a, s) each = each a s
  go_on k h (fault e, s) each = (refl, refl)

  module _ (user pass : Text) (now : ℕ) (msg : Text) where
    after_lem :
        (ran : Bool) (s : SqlApi m)
        → SameCode (pure (after_regist msg ran) s) (pure (Register.finish_regist msg ran) s)
    after_lem false s = (refl, refl)
    after_lem true s = (refl, refl)

    add_lem :
        (flag : Option Bool) (s : SqlApi m)
        → SameCode
            (add_account user pass now msg flag s)
            (Register.regist_new user pass now msg flag s)
    add_lem none s = (refl, refl)
    add_lem (some true) s = (refl, refl)
    add_lem (some false) s = go_on _ _ (regist user pass now s) after_lem

    -- The older processRegist ends with the return value, the code and the connection that the login
    -- manager's ends with.
    pub process_regist-code_of :
        (s : SqlApi m)
        → SameCode
            (process_regist user pass now msg s)
            (Register.process_regist user pass now msg s)
    unfolding process_regist Register.process_regist
    process_regist-code_of s = go_on _ _ (is_already_regist user s) add_lem
