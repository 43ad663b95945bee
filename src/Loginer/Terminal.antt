-- ===== src/Loginer/Terminal.antt =====
-- The guarantees of processLogin itself.
use single_terminal_login_sy.Base.{
  ◌⊎◌, ℕ, ◌≡◌, refl, sym, ap, ◌∙◌, inl, inr, Bool, true, false, Option, some, ltb,
}
use single_terminal_login_sy.Base.Text.{Text}
use single_terminal_login_sy.Base.Int.{ℤ, IsInt, negsuc}
use single_terminal_login_sy.Exec.{fault, use_after_free, Outcome, done, continue_of}
use single_terminal_login_sy.Mysql.{Mysql}
use single_terminal_login_sy.Mysql.Tables.{Tables, active, count_password}
use single_terminal_login_sy.Mysql.Sound.{IsSound}
use single_terminal_login_sy.Mysql.Laws.{MysqlLaws, Plain}
use single_terminal_login_sy.SqlApi.{SqlApi}
use single_terminal_login_sy.SqlApi.Laws.{Idle}
use single_terminal_login_sy.Loginer.{LoginReply, process_login}
use single_terminal_login_sy.Loginer.Parts.{is_valid_lem}
use single_terminal_login_sy.Loginer.Refine.{Fits, process_login-LoginStep}
use single_terminal_login_sy.Loginer.Single.{
  LoginStep-IsSound, OnlyDevice, LoginStep-OnlyDevice, LoginStep-others,
}

module _ {m : Mysql} (laws : MysqlLaws m) (user pass : Text) (fd : ℤ) (now : ℕ) (plain : Plain user)
    (plain_pass : Plain pass) (int : IsInt fd) (s : SqlApi m) (t : Tables) (v : IsSound laws.same t)
    (fits : Fits t laws.same user pass) (idle : Idle laws s t) where
  open laws use {same, tables}

  -- For a user and a password without quote and backslash, a descriptor in the range of int, sound
  -- tables whose counts and row numbers fit in an int, and no row pending: however a call of
  -- processLogin ends, also by the assertion, or when it reads a freed row that has changed, which
  -- is undefined behaviour, every user is logged in on one device at most and row numbers stay
  -- distinct.
  pub process_login-IsSound : IsSound same (tables (process_login user pass fd now s).1.mysql)
  process_login-IsSound =
      let (s', after, i, ends) =
        process_login-LoginStep laws user pass fd now plain plain_pass s t v fits idle in
      elim ends [
        | inl (reply, e, step) ↦
            rw (e, i.holds) (LoginStep-IsSound laws user pass fd now t reply after int v step)
        | inr (f, e, why, same_tables) ↦ rw (e, i.holds, same_tables) v
      ]

  -- For a user and a password without quote and backslash, a descriptor in the range of int, sound
  -- tables whose counts and row numbers fit in an int, and no row pending: after a call of
  -- processLogin that returned success, and so read no freed row that had changed, the user is
  -- logged in on exactly the device that asked, and the reply names the device it replaced, or -1.
  pub process_login-OnlyDevice :
      (reply : LoginReply) (s' : SqlApi m)
      → process_login user pass fd now s ≡ (done reply, s')
      → reply.ret ≡ true
      → OnlyDevice laws user pass fd now t reply (tables s'.mysql)
  process_login-OnlyDevice reply s' run ok =
      let (s₁, after, i, ends) =
        process_login-LoginStep laws user pass fd now plain plain_pass s t v fits idle in
      elim ends [
        | inl (r₁, e, step) ↦
            let same_end = sym run ∙ e in
            let same_reply : reply ≡ r₁ = cc (same_end) in
            let same_state : s' ≡ s₁ = cc (same_end) in
            rw (same_state, i.holds, same_reply)
              (LoginStep-OnlyDevice laws user pass fd now t r₁ after
                (ap (λ (q : LoginReply). q.ret) (sym same_reply) ∙ ok) step)
        | inr (f, e, why, same_tables) ↦ cc (sym run ∙ e)
      ]

  -- For a user and a password without quote and backslash, a descriptor in the range of int, sound
  -- tables whose counts and row numbers fit in an int, and no row pending: however a call of
  -- processLogin ends, also by the assertion, or when it reads a freed row that has changed, which
  -- is undefined behaviour, the rows that are logged in of a user with another name are as they
  -- were.
  pub process_login-others :
      (other : Text)
      → same user other ≡ false
      → active same other (tables (process_login user pass fd now s).1.mysql).logins
        ≡ active same other t.logins
  process_login-others other ne =
      let (s', after, i, ends) =
        process_login-LoginStep laws user pass fd now plain plain_pass s t v fits idle in
      elim ends [
        | inl (reply, e, step) ↦
            rw (e, i.holds) (LoginStep-others laws user pass fd now t reply after other ne v step)
        | inr (f, e, why, same_tables) ↦ rw (e, i.holds, same_tables)
      ]

  -- For a user and a password without quote and backslash, a descriptor in the range of int, sound
  -- tables whose counts and row numbers fit in an int, and no row pending: with a pair of name and
  -- password that no account has, processLogin returns a failure that names no device, or it reads
  -- a freed row that has changed, which is undefined behaviour; and the tables are as they were.
  pub process_login_wrong :
      count_password same user pass t.accounts ≡ 0
      → (s' : SqlApi m) × (tables s'.mysql ≡ t)
        × (((reply : LoginReply) × (process_login user pass fd now s ≡ (done reply, s'))
              × (reply.ret ≡ false)
              × (reply.logout_fd ≡ negsuc 0))
            ⊎ (process_login user pass fd now s ≡ (fault use_after_free, s')))
  unfolding process_login
  process_login_wrong wrong =
      let (s', i, ends) = is_valid_lem laws user plain pass plain_pass s fits.accounts idle in
      elim ends [
        | inl e ↦ (s', i.holds, inl (_, continue_of _ e, refl, refl))
        | inr (inl e) ↦ (s', i.holds, inl (_, continue_of _ (e ∙ rejected s'), refl, refl))
        | inr (inr e) ↦ (s', i.holds, inr (rw e))
      ]
    where
      rejected :
          (s' : SqlApi m)
          → ◌≡◌ {A = Outcome (Option Bool) × SqlApi m}
              (done (some (ltb 0 (count_password same user pass t.accounts))), s')
              (done (some false), s')
      rejected s' = ap (λ (n : ℕ). (done (some (ltb 0 n)), s')) wrong
