-- ===== src/Loginer/Refine.antt =====
-- processLogin refines the rule of Loginer/Step.
use single_terminal_login_sy.Base.{
  ℕ, ◌<◌, ◌≤◌, ◌^◌, ◌≡◌, refl, ap, ◌∙◌, ◌⊎◌, inl, inr, Bool, true, false, some, List, [], ◌∷◌,
  length, ltb, arith, Bool-cases,
}
use single_terminal_login_sy.Base.Text.{Text}
use single_terminal_login_sy.Base.Int.{ℤ, IsInt}
use single_terminal_login_sy.Exec.{
  Outcome, done, fault, assertion, continue_of, Fault, use_after_free,
}
use single_terminal_login_sy.Mysql.{Mysql}
use single_terminal_login_sy.Mysql.Tables.{Login, Tables, active, count_password}
use single_terminal_login_sy.Mysql.Rows.{active-Rows}
use single_terminal_login_sy.Mysql.Sound.{IsSound}
use single_terminal_login_sy.Mysql.Laws.{MysqlLaws, Plain}
use single_terminal_login_sy.SqlApi.{SqlApi}
use single_terminal_login_sy.SqlApi.Laws.{Idle}
use single_terminal_login_sy.Loginer.{LoginReply, enter, admit, process_login}
use single_terminal_login_sy.Loginer.Parts.{
  is_valid_lem, login_lem, set_logout_lem, is_already_logined_lem, get_fd_lem, get_fd_none_lem,
}
use single_terminal_login_sy.Loginer.Step.{
  LoginStep, refused, first, replaced, signed_out_only, named_only,
}

-- The numbers that the code holds in an `int` fit: the rows of an account and the row numbers.
pub record Fits (t : Tables) (same : Text → Text → Bool) (user pass : Text) : Type 0 where
  pub accounts : count_password same user pass t.accounts < 2 ^ 31
  pub ids : t.next_id ≤ 2 ^ 31

-- None or one.
pub at_most_one {ℓ} :
    {A : Type ℓ} (xs : List A) → length xs ≤ 1 → (xs ≡ []) ⊎ ((x : A) × (xs ≡ x ∷ []))
at_most_one [] h = inl refl
at_most_one (x ∷ []) h = inr (x, refl)
at_most_one (x ∷ y ∷ xs) h = absurd (omega arith)

module _ {m : Mysql} (laws : MysqlLaws m) (user pass : Text) (fd : ℤ) (now : ℕ) (plain : Plain user)
    (plain_pass : Plain pass) where
  open laws use {same}

  -- Why a run does not return: it read a freed row that no longer reads as it did, or the number of
  -- rows was asserted to be one with no device logged in.
  abbrev pub Stop : Tables → Fault → Type 0
  Stop t f = (f ≡ use_after_free) ⊎ ((f ≡ assertion) × (active same user t.logins ≡ []))

  -- A run that returns takes a step of the rule; one that does not leaves the tables as they were.
  abbrev pub Ends : Tables → Outcome LoginReply × SqlApi m → Type 0
  Ends t out =
      (s' : SqlApi m) × (after : Tables) × Idle laws s' after
      × (((reply : LoginReply) × (out ≡ (done reply, s'))
            × LoginStep same user pass fd now t reply after)
          ⊎ ((f : Fault) × (out ≡ (fault f, s')) × Stop t f × (after ≡ t)))

  module _ (t : Tables) (right : 0 < count_password same user pass t.accounts) where
    -- the branch of a user who is not logged in
    enter_first :
        (s : SqlApi m)
        → active same user t.logins ≡ []
        → Idle laws s t
        → Ends t (enter user pass fd now false s)
    enter_first s free idle =
        let (s', ends) = login_lem laws user plain pass plain_pass fd now s idle in
        elim ends [
          | inl (e, i) ↦ (s', _, i, inl (_, continue_of _ e, first right free refl refl))
          | inr (e, i) ↦ (s', _, i, inl (_, continue_of _ e, refused refl refl refl))
        ]

    -- the branch of a user who is, with one row
    enter_replace :
        (s : SqlApi m) (old : Login)
        → active same user t.logins ≡ old ∷ []
        → IsInt old.fd
        → old.id < 2 ^ 31
        → Idle laws s t
        → Ends t (enter user pass fd now true s)
    enter_replace s old one int small idle =
        let (s', i, found) = get_fd_lem laws user plain s one int small idle in
        elim found [
          | inl e ↦ (s', t, i, inl (_, continue_of _ e, refused refl refl refl))
          | inr (inr e) ↦ (s', t, i, inr (use_after_free, (rw e), inl refl, refl))
          | inr (inl e) ↦
              let (s'', ends) = set_logout_lem laws user plain pass plain_pass old.id fd now s' i in
              elim ends [
                | inl (e', i') ↦ (
                  s'',
                  _,
                  i',
                  inl (_, continue_of _ e ∙ continue_of _ e', replaced old right one refl refl),
                )
                | inr (inl (e', i')) ↦ (
                  s'',
                  _,
                  i',
                  inl (_, continue_of _ e ∙ continue_of _ e', signed_out_only old one refl refl),
                )
                | inr (inr (e', i')) ↦ (
                  s'',
                  _,
                  i',
                  inl (_, continue_of _ e ∙ continue_of _ e', named_only old one refl refl),
                )
              ]
        ]

    -- the branch that a failed query takes although no device is logged in
    enter_empty :
        (s : SqlApi m)
        → active same user t.logins ≡ []
        → Idle laws s t
        → Ends t (enter user pass fd now true s)
    enter_empty s free idle =
        let (s', i, found) = get_fd_none_lem laws user plain s free idle in
        elim found [
          | inl e ↦ (s', t, i, inl (_, continue_of _ e, refused refl refl refl))
          | inr e ↦ (s', t, i, inr (assertion, (rw e), inr (refl, free), refl))
        ]

    known :
        (s : SqlApi m) {l : List Login}
        → active same user t.logins ≡ l
        → ◌≡◌ {A = Outcome Bool × SqlApi m}
            (done (ltb 0 (length (active same user t.logins))), s)
            (done (ltb 0 (length l)), s)
    known s e = ap (λ (l : List Login). (done (ltb 0 (length l)), s)) e

    admit_lem :
        (s : SqlApi m)
        → IsSound same t
        → t.next_id ≤ 2 ^ 31
        → Idle laws s t
        → Ends t (admit user pass fd now (some true) s)
    admit_lem s v ids idle =
        let (s', i, present) =
          is_already_logined_lem laws user plain s (omega (arith, v.single user)) idle in
        elim (at_most_one (active same user t.logins) (v.single user)) [
          | inl free ↦ elim present [
            | inl e ↦ rw e (enter_empty s' free i)
            | inr (inl e) ↦ rw (e ∙ known s' free) (enter_first s' free i)
            | inr (inr e) ↦ (s', t, i, inr (use_after_free, (rw e), inl refl, refl))
          ]
          | inr (old, one) ↦
              let (low, int) = active-Rows same user t.next_id t.logins one v.rows in
              let done' = enter_replace s' old one int (omega arith) i in
              elim present [
                | inl e ↦ rw e done'
                | inr (inl e) ↦ rw (e ∙ known s' one) done'
                | inr (inr e) ↦ (s', t, i, inr (use_after_free, (rw e), inl refl, refl))
              ]
        ]

  -- For a user and a password without quote and backslash, sound tables whose counts and row
  -- numbers fit in an int, and no row pending: processLogin, with its SQL texts and its handling of
  -- result rows, takes one of the five kinds of steps of a relation between tables; or the
  -- assertion on the number of rows aborts it with no device of the user logged in; or it reads a
  -- freed row that has changed, which is undefined behaviour; and the last two leave the tables
  -- unchanged.
  pub process_login-LoginStep :
      (s : SqlApi m) (t : Tables)
      → IsSound same t
      → Fits t same user pass
      → Idle laws s t
      → Ends t (process_login user pass fd now s)
  unfolding process_login
  process_login-LoginStep s t v fits idle =
      let (s', i, ends) = is_valid_lem laws user plain pass plain_pass s fits.accounts idle in
      elim ends [
        | inl e ↦ rw e (s', t, i, inl (_, refl, refused refl refl refl))
        | inr (inr e) ↦ rw e (s', t, i, inr (use_after_free, refl, inl refl, refl))
        | inr (inl e) ↦ elim (Bool-cases (ltb 0 (count_password same user pass t.accounts))) [
          | inl right ↦
              rw (e ∙ ap (λ b. (done (some b), s')) right)
                (admit_lem t (ground arith) s' v fits.ids i)
          | inr wrong ↦
              rw (e ∙ ap (λ b. (done (some b), s')) wrong)
                (s', t, i, inl (_, refl, refused refl refl refl))
        ]
      ]
