-- ===== src/Manager/Followed.antt =====
-- loginer.cpp and register.cpp: what every call leaves in force, and whom it moves to another device.
use single_terminal_login_sy.Base.{inr, refl, ap, ◌∙◌, ℕ, ◌<◌, ◌^◌, ◌≡◌, refl, inl, arith}
use single_terminal_login_sy.Base.Text.{Text}
use single_terminal_login_sy.Base.Int.{ℤ, IsInt}
use single_terminal_login_sy.Mysql.{Mysql}
use single_terminal_login_sy.Mysql.Tables.{Tables, count_user, count_password, insert_account}
use single_terminal_login_sy.Mysql.Known.{count_password_le}
use single_terminal_login_sy.Mysql.Laws.{MysqlLaws, Plain}
use single_terminal_login_sy.SqlApi.{SqlApi}
use single_terminal_login_sy.Loginer.{process_login, process_logout}
use single_terminal_login_sy.Loginer.Devices.{
  devices, Moves, process_login-Moves, process_logout-Moves,
}
use single_terminal_login_sy.Register.{RegistReply, process_regist}
use single_terminal_login_sy.Register.Outcomes.{
  RegistStep, failed, taken, added, process_regist-RegistStep,
}
use single_terminal_login_sy.Manager.Order.{
  IsRested, HasRoom, before-Idle, process_login-IsRested, process_logout-IsRested,
  process_regist-IsRested,
}

module _ {m : Mysql} (laws : MysqlLaws m) where
  open laws use {same, tables}

  -- After a call the tables are in order, and of one user at most the device is another one.
  abbrev pub Followed : SqlApi m → SqlApi m → Type 0
  Followed s s' = IsRested laws s' × Moves same (tables s.mysql) (tables s'.mysql)

  pub process_login-Followed :
      (user pass : Text) (fd : ℤ) (now : ℕ) (s : SqlApi m)
      → Plain user
      → Plain pass
      → IsInt fd
      → HasRoom laws s
      → IsRested laws s
      → Followed s (process_login user pass fd now s).1
  process_login-Followed user pass fd now s plain plain_pass int room r =
      let o = r.tables_in_order in
      let few : count_password same user pass (tables s.mysql).accounts < 2 ^ 31 =
        omega (arith, count_password_le same user pass (tables s.mysql).accounts, o.unique user) in
      (
        process_login-IsRested laws user pass fd now s plain plain_pass int room r,
        process_login-Moves laws user pass fd now s (tables s.mysql) plain plain_pass o.sound
            (record { accounts = few; ids = room }) (before-Idle laws s r),
      )

  pub process_logout-Followed :
      (user : Text) (s : SqlApi m)
      → Plain user
      → HasRoom laws s
      → IsRested laws s
      → Followed s (process_logout user s).1
  process_logout-Followed user s plain room r = (
    process_logout-IsRested laws user s plain room r,
    process_logout-Moves laws user s (tables s.mysql) plain (before-Idle laws s r)
        r.tables_in_order.sound room,
  )

  pub process_regist-Followed :
      (user pass : Text) (now : ℕ) (msg : Text) (s : SqlApi m)
      → Plain user
      → Plain pass
      → IsRested laws s
      → Followed s (process_regist user pass now msg s).1
  process_regist-Followed user pass now msg s plain plain_pass r =
      let t = tables s.mysql in
      let few : count_user same user t.accounts < 2 ^ 31 =
        omega (arith, r.tables_in_order.unique user) in
      (
        process_regist-IsRested laws user pass now msg s plain plain_pass r,
        elim (process_regist-RegistStep laws user pass now msg plain plain_pass s t few
            (before-Idle laws s r)) [
              | inl (reply, s', after, e, i, step) ↦
                  rw (e, i.holds) (inl (same_devices t reply after step))
              | inr (s', e, i) ↦ rw (e, i.holds) (inl refl)
            ],
      )
    where
      same_devices :
          (t : Tables) (reply : RegistReply) (after : Tables)
          → RegistStep same user pass now t reply after
          → devices same after ≡ devices same t
      same_devices t reply after (failed _ a) = ap (devices same) a
      same_devices t reply after (taken _ _ a) = ap (devices same) a
      same_devices t reply after (added _ _ a) =
          ap (devices same) a ∙ (unfold insert_account in refl)
