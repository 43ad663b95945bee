-- ===== src/Manager/Codes.antt =====
-- userLoginImpl.cpp, processLogin and dealClientMessage: which codes a client can get for a login.
use single_terminal_login_sy.Base.{
  ℕ, ◌≡◌, refl, sym, ap, ◌⊎◌, inl, inr, Bool, true, false, Option, none, some,
}
use single_terminal_login_sy.Base.Text.{Text, codes}
use single_terminal_login_sy.Base.Int.{narrow, ℤ}
use single_terminal_login_sy.Codes.{code_value, success, system_error, type_value, login}
use single_terminal_login_sy.Exec.{
  Exec, Outcome, done, fault, pure, continue, ◌>>=◌, require, deref,
}
use single_terminal_login_sy.Mysql.{Mysql}
use single_terminal_login_sy.Loginer as Loginer
use single_terminal_login_sy.Loginer.{
  LoginReply, admit, enter, replace_device, finish_first, finish_replace,
  is_valid_user_name_and_pass_word, is_already_logined, get_already_logined_client_fd,
  set_logout_status_then_login,
}
use single_terminal_login_sy.Cjson.{Cjson}
use single_terminal_login_sy.Daemon.{Daemon}
use single_terminal_login_sy.Daemon.System.{Trace}
use single_terminal_login_sy.Manager.{
  UserLoginImpl, Answer, with_copy, of_login, settle, run_login, login_items, login_message,
  process_login, operate,
}

abbrev Has : {A : Type 0} → (A → Type 0) → Outcome A → Type 0
Has P (done a) = P a
Has P (fault e) = Unit

-- Whatever a run returns has the property.
abbrev Gives : {S A : Type 0} → (A → Type 0) → Exec S A → Type 0
Gives {S = S} P m = (s : S) → Has P (m s).0

module _ {S : Type 0} where
  continue-Has :
      {A B : Type 0} (P : B → Type 0) (o : Outcome A × S) (f : A → Exec S B)
      → ((a : A) → Gives P (f a))
      → Has P (continue o f).0
  continue-Has P (done a, s) f g = g a s
  continue-Has P (fault e, s) f g = tt

  bind-Gives :
      {A B : Type 0} (P : B → Type 0) (m : Exec S A) (f : A → Exec S B)
      → ((a : A) → Gives P (f a))
      → Gives P (m >>= f)
  bind-Gives P m f g s = continue-Has P (m s) f g

  -- As bind-Gives, with what the first part gives.
  continue-Has_from :
      {A B : Type 0} (Q : A → Type 0) (P : B → Type 0) (o : Outcome A × S) (f : A → Exec S B)
      → Has Q o.0
      → ((a : A) → Q a → Gives P (f a))
      → Has P (continue o f).0
  continue-Has_from Q P (done a, s) f h g = g a h s
  continue-Has_from Q P (fault e, s) f h g = tt

no_true : {P : Type 0} → false ≡ true → P
no_true h = cc

-- A reply that reports success has the code SUCCESS.
abbrev IsHonest : LoginReply → Type 0
IsHonest r = r.ret ≡ true → r.code ≡ success

first-IsHonest : (b : Bool) → IsHonest (finish_first b)
first-IsHonest true h = refl
first-IsHonest false h = cc

replace-IsHonest : (old : ℤ) (b : Bool) → IsHonest (finish_replace old b)
replace-IsHonest old true h = refl
replace-IsHonest old false h = cc

module _ {m : Mysql} (user pass : Text) (fd : ℤ) (t : ℕ) where
  replace_device-Gives :
      (o : Option (ℤ × ℕ)) → Gives IsHonest (replace_device {m = m} user pass fd t o)
  replace_device-Gives none = λ s h. no_true h
  replace_device-Gives (some (old, id)) =
      bind-Gives IsHonest (set_logout_status_then_login id user pass fd t)
        (λ b. pure (finish_replace old b)) (λ b s. replace-IsHonest old b)

  enter-Gives : (b : Bool) → Gives IsHonest (enter {m = m} user pass fd t b)
  enter-Gives false =
      bind-Gives IsHonest (Loginer.login user pass fd t) (λ b. pure (finish_first b))
        (λ b s. first-IsHonest b)
  enter-Gives true =
      bind-Gives IsHonest (get_already_logined_client_fd user) (replace_device user pass fd t)
        replace_device-Gives

  admit-Gives : (o : Option Bool) → Gives IsHonest (admit {m = m} user pass fd t o)
  admit-Gives none = λ s h. no_true h
  admit-Gives (some false) = λ s h. no_true h
  admit-Gives (some true) =
      bind-Gives IsHonest (is_already_logined user) (enter user pass fd t) enter-Gives

  honest : Gives IsHonest (Loginer.process_login {m = m} user pass fd t)
  unfolding Loginer.process_login
  honest =
      bind-Gives IsHonest (is_valid_user_name_and_pass_word user pass) (admit user pass fd t)
        admit-Gives

-- A return of 0 comes with the code SUCCESS.
abbrev IsFair : Bool × Answer → Type 0
IsFair r = r.0 ≡ true → r.1.errcode ≡ code_value success

-- SUCCESS or SYSTEM_ERROR.
abbrev IsCoarse : Answer → Type 0
IsCoarse a = (a.errcode ≡ code_value success) ⊎ (a.errcode ≡ code_value system_error)

settle-IsCoarse : (what : Text) (r : Bool × Answer) → IsFair r → IsCoarse (settle what r)
settle-IsCoarse what (true, a) h = inl (h refl)
settle-IsCoarse what (false, a) h = inr refl

module _ {m : Mysql} (j : Cjson) (time : Trace → ℕ) where
  run-Gives : (u p : Text) (f : ℤ) → Gives IsFair (run_login {m = m} j time u p f)
  run-Gives u p f s =
      continue-Has_from IsHonest IsFair (with_copy (Loginer.process_login u p f (time s.trace)) s)
        (λ r. pure (of_login r)) (honest u p f (time s.trace) s.own.sql_api)
        (λ r good s' ok. ap code_value (good ok))

  items-Gives : (u p f : Option j.Item) → Gives IsFair (login_items {m = m} j time u p f)
  items-Gives none p f = λ s h. no_true h
  items-Gives (some u) none f = λ s h. no_true h
  items-Gives (some u) (some p) none = λ s h. no_true h
  items-Gives (some u) (some p) (some f) = bind-Gives IsFair (require (j.is_string u)) _ (λ _.
      bind-Gives IsFair (require (j.is_string p)) _ (λ _.
        bind-Gives IsFair (require (j.is_number f)) _
          (λ _. run-Gives (j.valuestring u) (j.valuestring p) (narrow (j.valueint f)))))

  message-Gives : (msg info : Option j.Item) → Gives IsFair (login_message {m = m} j time msg info)
  message-Gives none info = λ s h. no_true h
  message-Gives (some msg) none = λ s h. no_true h
  message-Gives (some msg) (some info) = bind-Gives IsFair (require (j.is_object msg)) _ (λ _.
      bind-Gives IsFair (require (j.is_object info)) _ (λ _.
        items-Gives (j.get_object_item msg (codes "userName"))
          (j.get_object_item msg (codes "passWord")) (j.get_object_item info (codes "clientFd"))))

  fair : (text : Text) → Gives IsFair (process_login {m = m} j time text)
  unfolding process_login
  fair text = bind-Gives IsFair (deref (j.parse text)) _ (λ root.
      message-Gives (j.get_object_item root (codes "message"))
        (j.get_object_item root (codes "extendInfo")))

  of_done :
      (o : Outcome Answer × Daemon (UserLoginImpl m)) (a : Answer) (s' : Daemon (UserLoginImpl m))
      → Has IsCoarse o.0
      → o ≡ (done a, s')
      → IsCoarse a
  of_done (done b, s) a s' h e = rw (sym (done_eq b a (ap (λ x. x.0) e))) h
    where
      done_eq : (b a : Answer) → done b ≡ done a → b ≡ a
      done_eq b a e = cc
  of_done (fault x, s) a s' h e = cc

  -- Whatever the message, the tables and the cause of a refusal, a login that the manager answers has
  -- the code SUCCESS or the code SYSTEM_ERROR: a wrong password is not told from a failed query.
  pub operate-login_codes :
      (message : Text) (s s' : Daemon (UserLoginImpl m)) (a : Answer)
      → operate j time message (some (type_value login)) s ≡ (done a, s')
      → (a.errcode ≡ code_value success) ⊎ (a.errcode ≡ code_value system_error)
  operate-login_codes message s s' a e =
      of_done (operate j time message (some (type_value login)) s) a s'
        (continue-Has_from IsFair IsCoarse (process_login j time message s)
          (λ r. pure (settle (codes "SYSTEM ERROR: process login occur unexpect error!") r))
          (fair message s)
          (λ r good s1.
            settle-IsCoarse (codes "SYSTEM ERROR: process login occur unexpect error!") r good))
        e
