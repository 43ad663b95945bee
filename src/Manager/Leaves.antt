-- ===== src/Manager/Leaves.antt =====
-- Code of the login manager that leaves the tables in order, with a rule for each way in which it is put
-- together.
use single_terminal_login_sy.Base.{
  inl, ◌≡◌, refl, Bool, true, false, Option, none, some, if◌then◌else◌,
}
use single_terminal_login_sy.Base.Text.{Text}
use single_terminal_login_sy.Exec.{
  Exec, Outcome, done, fault, pure, continue, ◌>>=◌, ◌>>◌, require, deref,
}
use single_terminal_login_sy.Exec.Keeps.{Keeps, continue-Keeps, pure-Keeps}
use single_terminal_login_sy.Mysql.{Mysql}
use single_terminal_login_sy.Mysql.Laws.{MysqlLaws}
use single_terminal_login_sy.SqlApi.{SqlApi}
use single_terminal_login_sy.Cjson.{Cjson}
use single_terminal_login_sy.Daemon.{Daemon}
use single_terminal_login_sy.Daemon.Own.{Owned}
use single_terminal_login_sy.Manager.{UserLoginImpl, with_copy}
use single_terminal_login_sy.Manager.Followed.{Followed}
use single_terminal_login_sy.Manager.Order.{IsRested, HasRoom}

module _ {m : Mysql} (laws : MysqlLaws m) where
  abbrev pub Rested : UserLoginImpl m → Type 0
  Rested own = IsRested laws own.sql_api

  abbrev pub Roomy : UserLoginImpl m → Type 0
  Roomy own = HasRoom laws own.sql_api

  abbrev pub Left : UserLoginImpl m → UserLoginImpl m → Type 0
  Left own own' = Followed laws own.sql_api own'.sql_api

  -- A run that leaves the tables in order when they were, and had room, and moves one user at most.
  pub record Leaves {A : Type 0} (run : Exec (Daemon (UserLoginImpl m)) A) : Type 0 where
    pub after :
        (s : Daemon (UserLoginImpl m)) → Roomy s.own → Rested s.own → Left s.own (run s).1.own

  pub still : {own : UserLoginImpl m} → Rested own → Left own own
  still r = (r, inl refl)

  -- The copy of the connection is rested after a run, and so is the original.
  pub copy-Leaves :
      {A B : Type 0} (run : Exec (SqlApi m) A) (f : A → B)
      → ((s : SqlApi m) → HasRoom laws s → IsRested laws s → Followed laws s (run s).1)
      → Leaves (do a ← with_copy run; pure (f a))
  copy-Leaves run f each = record {
    after = λ s room r.
        continue-Keeps {P = Owned (Left s.own)} (with_copy run s) (λ a. pure (f a))
          (
            record {
              no_rows = r.no_rows;
              tables_in_order = (each s.own.sql_api room r).0.tables_in_order;
            },
            (each s.own.sql_api room r).1,
          )
          (λ a. pure-Keeps (f a));
  }

  pub guard-Leaves :
      {A : Type 0} (b : Bool) (run : Exec (Daemon (UserLoginImpl m)) A)
      → Leaves run
      → Leaves (require b >> run)
  guard-Leaves true run l = record { after = l.after }
  guard-Leaves false run l = record { after = λ s room r. still r }

  pub if-Leaves :
      {A : Type 0} (b : Bool) (run other : Exec (Daemon (UserLoginImpl m)) A)
      → Leaves run
      → Leaves other
      → Leaves (if b then run else other)
  if-Leaves true run other l l' = l
  if-Leaves false run other l l' = l'

  -- What follows a run does not touch the tables.
  pub then-Leaves :
      {A B : Type 0} (run : Exec (Daemon (UserLoginImpl m)) A)
      (f : A → Exec (Daemon (UserLoginImpl m)) B)
      → Leaves run
      → ((Q : UserLoginImpl m → Type 0) (a : A) → Keeps (Owned Q) (f a))
      → Leaves (run >>= f)
  then-Leaves run f l each = record {
    after = λ s room r.
        continue-Keeps {P = Owned (Left s.own)} (run s) f (l.after s room r) (each (Left s.own));
  }

  -- What comes before it does not either.
  pub first-Leaves :
      {A B : Type 0} (run : Exec (Daemon (UserLoginImpl m)) A)
      (f : A → Exec (Daemon (UserLoginImpl m)) B)
      → ((Q : UserLoginImpl m → Type 0) → Keeps (Owned Q) run)
      → ((a : A) → Leaves (f a))
      → Leaves (run >>= f)
  first-Leaves run f k each = record {
    after = λ s room r. go s room r (run s) ((k (λ own. own ≡ s.own)).after s refl);
  }
    where
      go :
          (s : Daemon (UserLoginImpl m))
          → Roomy s.own
          → Rested s.own
          → (o : Outcome _ × Daemon (UserLoginImpl m)) → o.1.own ≡ s.own
          → Left s.own (continue o f).1.own
      go s room r (done a, s') e = rw⁻¹ e ((each a).after s' (rw e room) (rw e r))
      go s room r (fault x, s') e = rw e (still r)

  module _ (j : Cjson) where
    -- Code that starts with the parsed message leaves what it leaves for each message.
    pub parsed-Leaves :
        {A : Type 0} (text : Text) (f : j.Item → Exec (Daemon (UserLoginImpl m)) A)
        → ((root : j.Item) → j.parse text ≡ some root → Leaves (f root))
        → Leaves (deref (j.parse text) >>= f)
    parsed-Leaves text f each = go (j.parse text) refl
      where
        go : (o : Option j.Item) → j.parse text ≡ o → Leaves (deref o >>= f)
        go none e = record { after = λ s room r. still r }
        go (some root) e = record { after = (each root e).after }
