-- ===== src/Manager/Rested.antt =====
-- userLoginImpl.cpp, dealClientMessage: what one message, whatever it says, leaves of the tables.
use single_terminal_login_sy.Base.{◌⊎◌, inl, inr, ℕ, ◌≡◌, refl, Option, none, some, []}
use single_terminal_login_sy.Base.Text.{Text, codes}
use single_terminal_login_sy.Base.Int.{narrow, IsInt-narrow, ℤ, IsInt, eq_ℤ}
use single_terminal_login_sy.Codes.{type_value, regist, login, logout}
use single_terminal_login_sy.Exec.{pure, ◌>>=◌}
use single_terminal_login_sy.Exec.Keeps.{pure-Keeps}
use single_terminal_login_sy.Mysql.{Mysql}
use single_terminal_login_sy.Mysql.Laws.{MysqlLaws, Plain}
use single_terminal_login_sy.Loginer as Loginer
use single_terminal_login_sy.Register as Register
use single_terminal_login_sy.Cjson.{Cjson}
use single_terminal_login_sy.Daemon.System.{Trace}
use single_terminal_login_sy.Manager.{
  with_copy, now, of_login, of_logout, of_regist, run_login, login_items, login_message,
  process_login, logout_items, logout_message, process_logout, regist_items, regist_message,
  process_regist, operate,
}
use single_terminal_login_sy.Manager.Followed.{
  process_login-Followed, process_logout-Followed, process_regist-Followed,
}
use single_terminal_login_sy.Manager.Leaves.{
  Leaves, still, copy-Leaves, guard-Leaves, if-Leaves, then-Leaves, parsed-Leaves,
}

-- The names of the members that the user and the password are read from.
abbrev pub Credential : Text → Type 0
Credential k = (k ≡ codes "userName") ⊎ (k ≡ codes "passWord")

-- A text that gives no user name or password with a quote or a backslash.
pub record IsCalm (j : Cjson) (text : Text) : Type 0 where
  pub plain :
      (root message item : j.Item) (k : Text)
      → Credential k
      → j.parse text ≡ some root
      → j.get_object_item root (codes "message") ≡ some message
      → j.get_object_item message k ≡ some item
      → Plain (j.valuestring item)

module _ {m : Mysql} (laws : MysqlLaws m) where
  module _ (j : Cjson) (time : Trace → ℕ) where
    login_lem :
        (user pass : Text) (fd : ℤ)
        → Plain user
        → Plain pass
        → IsInt fd
        → Leaves laws (run_login j time user pass fd)
    login_lem user pass fd plain plain_pass int = record {
      after = λ s room r.
          (copy-Leaves laws (Loginer.process_login user pass fd (time s.trace)) of_login (λ c.
              process_login-Followed laws user pass fd (time s.trace) c plain plain_pass int)).after
            s room r;
    }

    logout_lem :
        (user : Text)
        → Plain user
        → Leaves laws (do r ← with_copy (Loginer.process_logout user); pure (of_logout r))
    logout_lem user plain =
        copy-Leaves laws (Loginer.process_logout user) of_logout
          (λ c. process_logout-Followed laws user c plain)

    regist_lem :
        (user pass : Text)
        → Plain user
        → Plain pass
        → Leaves laws (do
          t ← now j time
          r ← with_copy (Register.process_regist user pass t [])
          pure (of_regist r))
    regist_lem user pass plain plain_pass = record {
      after = λ s room r.
          (copy-Leaves laws (Register.process_regist user pass (time s.trace) []) of_regist
              (λ c roomy.
                process_regist-Followed laws user pass (time s.trace) [] c plain plain_pass)).after
            s room r;
    }

    -- What is known of the members of a calm message.
    abbrev PlainItem : Option j.Item → Type 0
    PlainItem o = (item : j.Item) → o ≡ some item → Plain (j.valuestring item)

    login_items_lem :
        (user pass fd : Option j.Item)
        → PlainItem user
        → PlainItem pass
        → Leaves laws (login_items j time user pass fd)
    login_items_lem none pass fd a b = record { after = λ s room r. still laws r }
    login_items_lem (some user) none fd a b = record { after = λ s room r. still laws r }
    login_items_lem (some user) (some pass) none a b = record { after = λ s room r. still laws r }
    login_items_lem (some user) (some pass) (some fd) a b = guard-Leaves laws (j.is_string user) _ (
        guard-Leaves laws (j.is_string pass) _ (
          guard-Leaves laws (j.is_number fd) _ (
            login_lem (j.valuestring user) (j.valuestring pass) (narrow (j.valueint fd))
              (a user refl) (b pass refl) (IsInt-narrow (j.valueint fd)))))

    logout_items_lem :
        (user : Option j.Item) → PlainItem user → Leaves laws (logout_items j time user)
    logout_items_lem none a = record { after = λ s room r. still laws r }
    logout_items_lem (some user) a =
        guard-Leaves laws (j.is_string user) _ (logout_lem (j.valuestring user) (a user refl))

    regist_items_lem :
        (user pass : Option j.Item)
        → PlainItem user
        → PlainItem pass
        → Leaves laws (regist_items j time user pass)
    regist_items_lem none pass a b = record { after = λ s room r. still laws r }
    regist_items_lem (some user) none a b = record { after = λ s room r. still laws r }
    regist_items_lem (some user) (some pass) a b = guard-Leaves laws (j.is_string user) _ (
        guard-Leaves laws (j.is_string pass) _
          (regist_lem (j.valuestring user) (j.valuestring pass) (a user refl) (b pass refl)))

    abbrev PlainMessage : Option j.Item → Type 0
    PlainMessage o =
        (message : j.Item)
        → o ≡ some message
        → (k : Text) → Credential k
        → PlainItem (j.get_object_item message k)

    login_message_lem :
        (message info : Option j.Item)
        → PlainMessage message
        → Leaves laws (login_message j time message info)
    login_message_lem none info a = record { after = λ s room r. still laws r }
    login_message_lem (some message) none a = record { after = λ s room r. still laws r }
    login_message_lem (some message) (some info) a = guard-Leaves laws (j.is_object message) _ (
        guard-Leaves laws (j.is_object info) _ (
          login_items_lem _ _ _ (a message refl (codes "userName") (inl refl))
            (a message refl (codes "passWord") (inr refl))))

    logout_message_lem :
        (message : Option j.Item)
        → PlainMessage message
        → Leaves laws (logout_message j time message)
    logout_message_lem none a = record { after = λ s room r. still laws r }
    logout_message_lem (some message) a =
        guard-Leaves laws (j.is_object message) _
          (logout_items_lem _ (a message refl (codes "userName") (inl refl)))

    regist_message_lem :
        (message : Option j.Item)
        → PlainMessage message
        → Leaves laws (regist_message j time message)
    regist_message_lem none a = record { after = λ s room r. still laws r }
    regist_message_lem (some message) a = guard-Leaves laws (j.is_object message) _ (
        regist_items_lem _ _ (a message refl (codes "userName") (inl refl))
          (a message refl (codes "passWord") (inr refl)))

    module _ (text : Text) (calm : IsCalm j text) where
      process_login-Leaves : Leaves laws (process_login j time text)
      unfolding process_login
      process_login-Leaves = parsed-Leaves laws j text _ (λ root e.
          login_message_lem _ _
            (λ message h k c item has. calm.plain root message item k c e h has))

      process_logout-Leaves : Leaves laws (process_logout j time text)
      unfolding process_logout
      process_logout-Leaves = parsed-Leaves laws j text _ (λ root e.
          logout_message_lem _ (λ message h k c item has. calm.plain root message item k c e h has))

      process_regist-Leaves : Leaves laws (process_regist j time text)
      unfolding process_regist
      process_regist-Leaves = parsed-Leaves laws j text _ (λ root e.
          regist_message_lem _ (λ message h k c item has. calm.plain root message item k c e h has))

      pub operate-Leaves : (t : Option ℤ) → Leaves laws (operate j time text t)
      operate-Leaves none = record { after = λ s room r. still laws r }
      operate-Leaves (some t) =
          if-Leaves laws (eq_ℤ t (type_value regist)) _ _
            (then-Leaves laws _ _ process_regist-Leaves (λ Q r. pure-Keeps _))
            (if-Leaves laws (eq_ℤ t (type_value login)) _ _
              (then-Leaves laws _ _ process_login-Leaves (λ Q r. pure-Keeps _))
              (if-Leaves laws (eq_ℤ t (type_value logout)) _ _
                (then-Leaves laws _ _ process_logout-Leaves (λ Q r. pure-Keeps _))
                (record { after = λ s room r. still laws r })))
