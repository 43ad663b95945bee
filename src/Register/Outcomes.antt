-- ===== src/Register/Outcomes.antt =====
-- processRegist: what a call does to the accounts.
use single_terminal_login_sy.Base.{
  ℕ, ◌<◌, ◌≤◌, ◌^◌, ◌≡◌, refl, sym, ap, ◌∙◌, ◌⊎◌, inl, inr, Bool, true, false, Option, some, List,
  [], ◌∷◌, ltb, arith, Bool-cases,
}
use single_terminal_login_sy.Base.Text.{Text}
use single_terminal_login_sy.Codes.{success, already_regist}
use single_terminal_login_sy.Exec.{fault, use_after_free, Outcome, done, continue_of}
use single_terminal_login_sy.Mysql.{Mysql}
use single_terminal_login_sy.Mysql.Tables.{
  Account, Tables, count_user, count_password, insert_account,
}
use single_terminal_login_sy.Mysql.Sound.{same_left}
use single_terminal_login_sy.Mysql.Laws.{MysqlLaws, Plain}
use single_terminal_login_sy.Mysql.Statements.{count_user_sql, insert_account_sql}
use single_terminal_login_sy.SqlApi.{SqlApi}
use single_terminal_login_sy.SqlApi.Laws.{Idle, insert_lem}
use single_terminal_login_sy.SqlApi.Count.{select_count_lem}
use single_terminal_login_sy.Register.{
  RegistReply, insert_failed, is_already_regist, regist, regist_new, process_regist,
}

-- The three ends of a registration: a statement failed, the name is taken, or the account is new.
pub data RegistStep (same : Text → Text → Bool) (user pass : Text) (now : ℕ) (t : Tables)
    (reply : RegistReply) (after : Tables) : Type 0 where
  failed : reply ≡ insert_failed → after ≡ t → RegistStep same user pass now t reply after
  taken :
      0 < count_user same user t.accounts
      → reply.code ≡ already_regist
      → after ≡ t
      → RegistStep same user pass now t reply after
  added :
      count_user same user t.accounts ≡ 0
      → reply.code ≡ success
      → after ≡ insert_account user pass now t
      → RegistStep same user pass now t reply after

-- A user name has one account at most.
abbrev pub IsUnique : (Text → Text → Bool) → Tables → Type 0
IsUnique same t = (user : Text) → count_user same user t.accounts ≤ 1

module _ {m : Mysql} (laws : MysqlLaws m) (user pass : Text) (now : ℕ) (msg : Text)
    (plain : Plain user) (plain_pass : Plain pass) (s : SqlApi m) (t : Tables)
    (small : count_user laws.same user t.accounts < 2 ^ 31) (idle : Idle laws s t) where
  open laws use {same, same_refl, same_symm, same_trans, tables}

  abbrev pub RegistReturns : Outcome RegistReply × SqlApi m → Type 0
  RegistReturns out =
      (reply : RegistReply) × (s' : SqlApi m) × (after : Tables) × (out ≡ (done reply, s'))
      × Idle laws s' after
      × RegistStep same user pass now t reply after

  -- A call returns, or stops at the freed row, with nothing done.
  abbrev pub RegistEnds : Outcome RegistReply × SqlApi m → Type 0
  RegistEnds out =
      RegistReturns out ⊎ ((s' : SqlApi m) × (out ≡ (fault use_after_free, s')) × Idle laws s' t)

  is_already_regist_lem :
      (s' : SqlApi m) × Idle laws s' t
      × ((is_already_regist user s ≡ (done Option.none, s'))
          ⊎ (is_already_regist user s ≡ (done (some (ltb 0 (count_user same user t.accounts))), s'))
          ⊎ (is_already_regist user s ≡ (fault use_after_free, s')))
  unfolding is_already_regist
  is_already_regist_lem =
      let (s', i, ends) =
        select_count_lem laws (count_user_sql user) (λ u. count_user same user u.accounts) s
          (laws.counts_user user plain) small idle in
      elim ends [
        | inl e ↦ (s', i, inl (rw e))
        | inr (inl e) ↦ (s', i, inr (inl (rw e (ground arith))))
        | inr (inr e) ↦ (s', i, inr (inr (rw e)))
      ]

  add_lem :
      (s' : SqlApi m)
      → Idle laws s' t
      → count_user same user t.accounts ≡ 0
      → RegistReturns (regist_new user pass now msg (some false) s')
  unfolding regist
  add_lem s' i free =
      let (s'', ends) =
        insert_lem laws (insert_account_sql user pass now) (insert_account user pass now) s'
          (laws.inserts_account user pass now plain plain_pass) i in
      elim ends [
        | inl (e, i') ↦ (_, s'', _, continue_of _ e, i', added free refl refl)
        | inr (e, i') ↦ (_, s'', _, continue_of _ e, i', failed refl refl)
      ]

  -- For a user and a password without quote and backslash, a count of the user's accounts that fits
  -- in an int, and no row pending: processRegist ends in one of three ways: a statement failed and
  -- nothing changed, the name is taken and nothing changed, or the name was free and the account is
  -- added; or it reads a freed row that has changed, which is undefined behaviour, and has changed
  -- no table.
  pub process_regist-RegistStep : RegistEnds (process_regist user pass now msg s)
  unfolding process_regist
  process_regist-RegistStep =
      let (s', i, ends) = is_already_regist_lem in
      elim ends [
        | inl e ↦ inl (_, s', t, continue_of _ e, i, failed refl refl)
        | inr (inr e) ↦ inr (s', (rw e), i)
        | inr (inl e) ↦ elim (Bool-cases (ltb 0 (count_user same user t.accounts))) [
          | inl hit ↦ inl (
            _,
            s',
            t,
            continue_of _ (e ∙ ap (λ b. (done (some b), s')) hit),
            i,
            taken (ground arith) refl refl,
          )
          | inr new ↦ rw (e ∙ ap (λ b. (done (some b), s')) new) (inl (add_lem s' i (ground arith)))
        ]
      ]

  count_password_new :
      (u : Tables) → 0 < count_password same user pass (insert_account user pass now u).accounts
  unfolding insert_account count_password
  count_password_new u = rw (same_refl user, same_refl pass) (omega arith)

  added_accepts :
      (reply : RegistReply) (after : Tables)
      → reply.code ≡ success
      → RegistStep same user pass now t reply after
      → 0 < count_password same user pass after.accounts
  added_accepts reply after ok (failed r _) = cc (ap (λ (q : RegistReply). q.code) r)
  added_accepts reply after ok (taken _ r _) = cc
  added_accepts reply after ok (added _ _ a) = rw a (count_password_new t)

  count_user_same :
      (other : Text) (rows : List Account)
      → same user other ≡ true
      → count_user same user rows ≡ count_user same other rows
  unfolding count_user
  count_user_same other [] h = refl
  count_user_same other (a ∷ rows) h =
      rw
        (same_left same same_symm same_trans user other a.user_name h, count_user_same other rows h)

  pub RegistStep-IsUnique :
      (reply : RegistReply) (after : Tables)
      → IsUnique same t
      → RegistStep same user pass now t reply after
      → IsUnique same after
  unfolding insert_account count_user
  RegistStep-IsUnique reply after h (failed _ a) = rw a h
  RegistStep-IsUnique reply after h (taken _ _ a) = rw a h
  RegistStep-IsUnique reply after h (added free _ a) = rw a λ other.
      elim (Bool-cases (same user other)) [
        | inl hit ↦ rw hit (omega (arith, count_user_same other t.accounts hit, free))
        | inr miss ↦ rw miss (omega (arith, h other))
      ]

  -- For a user and a password without quote and backslash, a count of the user's accounts that fits
  -- in an int, and no row pending: after a registration that returned with the code SUCCESS, and so
  -- read no freed row that had changed, the table has an account for the name and the password.
  pub process_regist-accepts :
      (reply : RegistReply) (s' : SqlApi m)
      → process_regist user pass now msg s ≡ (done reply, s')
      → reply.code ≡ success
      → 0 < count_password same user pass (tables s'.mysql).accounts
  process_regist-accepts reply s' run ok = elim process_regist-RegistStep [
    | inl (r₁, s₁, after, e, i, step) ↦
        let same_end = sym run ∙ e in
        let same_state : s' ≡ s₁ = cc (same_end) in
        let same_reply : reply ≡ r₁ = cc (same_end) in
        rw (same_state, i.holds)
          (added_accepts r₁ after (ap (λ (q : RegistReply). q.code) (sym same_reply) ∙ ok) step)
    | inr (s₁, e, i) ↦ cc (sym run ∙ e)
  ]

  -- For a user and a password without quote and backslash, a count of the user's accounts that fits
  -- in an int, and no row pending: when every name has one account at most, it is so after
  -- processRegist, and also when it reads a freed row that has changed, which is undefined
  -- behaviour.
  pub process_regist-IsUnique :
      IsUnique same t → IsUnique same (tables (process_regist user pass now msg s).1.mysql)
  process_regist-IsUnique h = elim process_regist-RegistStep [
    | inl (reply, s', after, e, i, step) ↦ rw (e, i.holds) (RegistStep-IsUnique reply after h step)
    | inr (s', e, i) ↦ rw (e, i.holds) h
  ]
