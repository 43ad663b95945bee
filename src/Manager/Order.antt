-- ===== src/Manager/Order.antt =====
-- loginer.cpp and register.cpp: what every call leaves in force between one message and the next.
use single_terminal_login_sy.Base.{ℕ, ◌≤◌, ◌<◌, ◌^◌, ◌≡◌, refl, inl, inr, Bool, [], arith}
use single_terminal_login_sy.Base.Text.{Text}
use single_terminal_login_sy.Base.Int.{ℤ, pos, IsInt}
use single_terminal_login_sy.Mysql.{Mysql}
use single_terminal_login_sy.Mysql.Tables.{
  Tables, count_user, count_password, insert_login, update_logout, insert_account,
}
use single_terminal_login_sy.Mysql.Sound.{IsSound, update_logout-IsSound, insert_account-IsSound}
use single_terminal_login_sy.Mysql.Known.{
  Known, sign_out-Known, insert_account-Known, count_password_le,
}
use single_terminal_login_sy.Mysql.Laws.{MysqlLaws, Plain}
use single_terminal_login_sy.SqlApi.{SqlApi}
use single_terminal_login_sy.SqlApi.Laws.{Idle}
use single_terminal_login_sy.Loginer.{LoginReply, process_login, process_logout}
use single_terminal_login_sy.Loginer.Step.{
  LoginStep, refused, first, replaced, signed_out_only, named_only,
}
use single_terminal_login_sy.Loginer.Refine.{process_login-LoginStep}
use single_terminal_login_sy.Loginer.Single.{LoginStep-IsSound}
use single_terminal_login_sy.Loginer.Logout.{process_logout-update_logout}
use single_terminal_login_sy.Register.{RegistReply, process_regist}
use single_terminal_login_sy.Register.Outcomes.{
  RegistStep, failed, taken, added, IsUnique, RegistStep-IsUnique, process_regist-RegistStep,
}

-- Tables in order: every user is logged in on one device at most, every name has one account at
-- most, and whoever is logged in has an account.
pub record InOrder (same : Text → Text → Bool) (t : Tables) : Type 0 where
  pub sound : IsSound same t
  pub unique : IsUnique same t
  pub known : Known same t.accounts t.logins

-- Between two messages: the tables are in order and no fetched row is pending.
pub record IsRested {m : Mysql} (laws : MysqlLaws m) (s : SqlApi m) : Type 0 where
  pub no_rows : s.mysql_result.mysql_row_vec ≡ []
  pub tables_in_order : InOrder laws.same (laws.tables s.mysql)

-- The next row number still fits in an int.
abbrev pub HasRoom : {m : Mysql} → MysqlLaws m → SqlApi m → Type 0
HasRoom laws s = (laws.tables s.mysql).next_id ≤ 2 ^ 31

module _ {m : Mysql} (laws : MysqlLaws m) where
  open laws use {same, same_refl, same_symm, same_trans, tables}

  pub before-Idle : (s : SqlApi m) → IsRested laws s → Idle laws s (tables s.mysql)
  before-Idle s r = record { no_rows = r.no_rows; holds = refl }

  after-IsRested : (s : SqlApi m) (t : Tables) → Idle laws s t → InOrder same t → IsRested laws s
  after-IsRested s t i o = record { no_rows = i.no_rows; tables_in_order = rw i.holds o }

  module _ (user pass : Text) (fd : ℤ) (now : ℕ) (t : Tables) (reply : LoginReply) (after : Tables)
      (o : InOrder same t) where
    LoginStep-IsUnique : LoginStep same user pass fd now t reply after → IsUnique same after
    unfolding insert_login update_logout
    LoginStep-IsUnique (refused _ _ a) = rw a o.unique
    LoginStep-IsUnique (first _ _ _ a) = rw a o.unique
    LoginStep-IsUnique (replaced old _ _ _ a) = rw a o.unique
    LoginStep-IsUnique (signed_out_only old _ _ a) = rw a o.unique
    LoginStep-IsUnique (named_only old _ _ a) = rw a o.unique

    LoginStep-Known :
        LoginStep same user pass fd now t reply after → Known same after.accounts after.logins
    unfolding insert_login update_logout
    LoginStep-Known (refused _ _ a) = rw a o.known
    LoginStep-Known (first right _ _ a) = rw a (right, o.known)
    LoginStep-Known (replaced old right _ _ a) =
        rw a (right, sign_out-Known same (pos old.id) t.accounts t.logins o.known)
    LoginStep-Known (signed_out_only old _ _ a) =
        rw a (sign_out-Known same (pos old.id) t.accounts t.logins o.known)
    LoginStep-Known (named_only old _ _ a) = rw a o.known

    LoginStep-InOrder :
        IsInt fd → LoginStep same user pass fd now t reply after → InOrder same after
    LoginStep-InOrder int step = record {
      sound = LoginStep-IsSound laws user pass fd now t reply after int o.sound step;
      unique = LoginStep-IsUnique step;
      known = LoginStep-Known step;
    }

  -- However a login ends.
  pub process_login-IsRested :
      (user pass : Text) (fd : ℤ) (now : ℕ) (s : SqlApi m)
      → Plain user
      → Plain pass
      → IsInt fd
      → HasRoom laws s
      → IsRested laws s
      → IsRested laws (process_login user pass fd now s).1
  process_login-IsRested user pass fd now s plain plain_pass int room r =
      let o = r.tables_in_order in
      let t = tables s.mysql in
      let few : count_password same user pass t.accounts < 2 ^ 31 =
        omega (arith, count_password_le same user pass t.accounts, o.unique user) in
      let (s', after, i, ends) =
        process_login-LoginStep laws user pass fd now plain plain_pass s t o.sound
          (record { accounts = few; ids = room }) (before-Idle s r) in
      elim ends [
        | inl (reply, e, step) ↦ rw e (
            after-IsRested s' after i (LoginStep-InOrder user pass fd now t reply after o int step))
        | inr (f, e, why, same_tables) ↦ rw e (after-IsRested s' after i (rw same_tables o))
      ]

  update_logout-InOrder : (z : ℤ) (t : Tables) → InOrder same t → InOrder same (update_logout z t)
  unfolding update_logout
  update_logout-InOrder z t o = record {
    sound = unfold update_logout in update_logout-IsSound same z t o.sound;
    unique = o.unique;
    known = sign_out-Known same z t.accounts t.logins o.known;
  }

  pub process_logout-IsRested :
      (user : Text) (s : SqlApi m)
      → Plain user
      → HasRoom laws s
      → IsRested laws s
      → IsRested laws (process_logout user s).1
  process_logout-IsRested user s plain room r =
      let o = r.tables_in_order in
      let t = tables s.mysql in
      elim (process_logout-update_logout laws user plain s t (before-Idle s r) o.sound room) [
        | inl (reply, s', after, e, i, inl (refusal, kept)) ↦
            rw e (after-IsRested s' after i (rw kept o))
        | inl (reply, s', after, e, i, inr (inl kept)) ↦
            rw e (after-IsRested s' after i (rw kept o))
        | inl (reply, s', after, e, i, inr (inr (z, out))) ↦
            rw e (after-IsRested s' after i (rw out (update_logout-InOrder z t o)))
        | inr (s', e, i) ↦ rw e (after-IsRested s' t i o)
      ]

  insert_account-InOrder :
      (user pass : Text) (now : ℕ) (t : Tables)
      → InOrder same t
      → IsUnique same (insert_account user pass now t)
      → InOrder same (insert_account user pass now t)
  unfolding insert_account
  insert_account-InOrder user pass now t o unique = record {
    sound = insert_account-IsSound same user pass now t o.sound;
    unique = unique;
    known = insert_account-Known same _ t.accounts t.logins o.known;
  }

  pub process_regist-IsRested :
      (user pass : Text) (now : ℕ) (msg : Text) (s : SqlApi m)
      → Plain user
      → Plain pass
      → IsRested laws s
      → IsRested laws (process_regist user pass now msg s).1
  process_regist-IsRested user pass now msg s plain plain_pass r =
      let o = r.tables_in_order in
      let t = tables s.mysql in
      let few : count_user same user t.accounts < 2 ^ 31 = omega (arith, o.unique user) in
      elim (process_regist-RegistStep laws user pass now msg plain plain_pass s t few
        (before-Idle s r)) [
          | inl (reply, s', after, e, i, step) ↦
              let unique =
                RegistStep-IsUnique laws user pass now msg plain plain_pass s t few
                  (before-Idle s r) reply after o.unique step in
              rw e (after-IsRested s' after i (in_order t o reply after unique step))
          | inr (s', e, i) ↦ rw e (after-IsRested s' t i o)
        ]
    where
      in_order :
          (t : Tables)
          → InOrder same t
          → (reply : RegistReply) (after : Tables) → IsUnique same after
          → RegistStep same user pass now t reply after
          → InOrder same after
      in_order t o reply after unique (failed _ a) = rw a o
      in_order t o reply after unique (taken _ _ a) = rw a o
      in_order t o reply after unique (added _ _ a) =
          rw a (insert_account-InOrder user pass now t o (rw⁻¹ a unique))
