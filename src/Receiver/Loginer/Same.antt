-- ===== src/Receiver/Loginer/Same.antt =====
-- The older processLogin and the login manager's.
use single_terminal_login_sy.Base.{ℕ, ◌≡◌, refl, Bool, true, false, Option, none, some}
use single_terminal_login_sy.Base.Text.{Text, codes}
use single_terminal_login_sy.Base.Int.{ℤ, is_neg}
use single_terminal_login_sy.Exec.{Exec, on_done, Outcome, done, fault, continue, pure, ◌>>=◌}
use single_terminal_login_sy.Mysql.{Mysql}
use single_terminal_login_sy.SqlApi.{SqlApi}
use single_terminal_login_sy.Loginer as Loginer
use single_terminal_login_sy.Loginer.{LoginReply}
use single_terminal_login_sy.Daemon.System.{Kernel, Trace, sys_write}
use single_terminal_login_sy.Receiver.Loginer.{
  Noticer, NoticedReply, with_sql, notice_logout, after_update, force_out, come_in, let_pass,
  after_insert, process_login,
}

-- A reply of the login manager without the descriptor.
abbrev pub without_fd : LoginReply → NoticedReply
without_fd r = record { ret = r.ret; code = r.code; msg = r.msg }

-- Every outcome of `run` is that of `old` on the connection, which ends in the same state.
abbrev pub SameRun :
    {m : Mysql} {A B : Type 0} → (A → B) → Exec (Noticer m) B → Exec (SqlApi m) A → Type 0
SameRun {m = m} f run old =
    (s : Noticer m)
    → ((run s).0 ≡ on_done f (old s.sql_api).0) × ((run s).1.sql_api ≡ (old s.sql_api).1)

module _ {m : Mysql} {A B C : Type 0} (f : B → C) (k : A → Exec (Noticer m) C)
    (h : A → Exec (SqlApi m) B) where
  go_on :
      ((a : A) → SameRun f (k a) (h a))
      → (t : Trace) (o : Outcome A × SqlApi m)
      → ((continue (o.0, record { sql_api = o.1; trace = t }) k).0 ≡ on_done f (continue o h).0)
        × ((continue (o.0, record { sql_api = o.1; trace = t }) k).1.sql_api ≡ (continue o h).1)
  go_on each t (done a, sql) = each a (record { sql_api = sql; trace = t })
  go_on each t (fault e, sql) = (refl, refl)

  -- A run on the connection goes on in the same way.
  bind-SameRun :
      (old : Exec (SqlApi m) A)
      → ((a : A) → SameRun f (k a) (h a))
      → SameRun f (with_sql old >>= k) (old >>= h)
  bind-SameRun old each s = go_on each s.trace (old s.sql_api)

-- Notices never fail.
abbrev pub Hears : Kernel → Type 0
Hears sys = (t : Trace) (old : ℤ) → is_neg (sys t (sys_write old (codes "logout"))).ret ≡ false

abbrev noticed : {m : Mysql} → Kernel → ℤ → Noticer m → Noticer m
noticed sys old s = (notice_logout sys old s).1

module _ {m : Mysql} (sys : Kernel) (hears : Hears sys) (user pass : Text) (fd : ℤ) (now : ℕ) where
  update_lem :
      (old : ℤ) (ran : Bool)
      → SameRun {m = m} without_fd (pure (after_update ran)) (pure (Loginer.finish_replace old ran))
  update_lem old false s = (refl, refl)
  update_lem old true s = (refl, refl)

  replace_lem :
      (found : Option (ℤ × ℕ))
      → SameRun {m = m} without_fd
          (force_out sys user pass fd now found)
          (Loginer.replace_device user pass fd now found)
  replace_lem none s = (refl, refl)
  replace_lem (some (old, fui_id)) s = rw (hears s.trace old) (
      bind-SameRun without_fd _ _ (Loginer.set_logout_status_then_login fui_id user pass fd now)
        (update_lem old) (noticed sys old s))

  insert_lem :
      (ran : Bool)
      → SameRun {m = m} without_fd (pure (after_insert ran)) (pure (Loginer.finish_first ran))
  insert_lem false s = (refl, refl)
  insert_lem true s = (refl, refl)

  enter_lem :
      (present : Bool)
      → SameRun {m = m} without_fd
          (come_in sys user pass fd now present)
          (Loginer.enter user pass fd now present)
  enter_lem false = bind-SameRun without_fd _ _ (Loginer.login user pass fd now) insert_lem
  enter_lem true =
      bind-SameRun without_fd _ _ (Loginer.get_already_logined_client_fd user) replace_lem

  admit_lem :
      (valid : Option Bool)
      → SameRun {m = m} without_fd
          (let_pass sys user pass fd now valid)
          (Loginer.admit user pass fd now valid)
  admit_lem none s = (refl, refl)
  admit_lem (some false) s = (refl, refl)
  admit_lem (some true) s =
      bind-SameRun without_fd _ _ (Loginer.is_already_logined user) enter_lem s

  -- When notices never fail, the older processLogin gives the return value, the code and the text of
  -- the login manager's, faults where it faults, and leaves the connection as it does.
  pub process_login-without_fd :
      (s : Noticer m)
      → ((process_login sys user pass fd now s).0
          ≡ on_done without_fd (Loginer.process_login user pass fd now s.sql_api).0)
        × ((process_login sys user pass fd now s).1.sql_api
            ≡ (Loginer.process_login user pass fd now s.sql_api).1)
  unfolding process_login Loginer.process_login
  process_login-without_fd =
      bind-SameRun without_fd _ _ (Loginer.is_valid_user_name_and_pass_word user pass) admit_lem
