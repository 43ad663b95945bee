-- ===== src/Loginer/Logout.antt =====
-- processLogout: what a call does to the tables, and the row numbers it cannot handle.
use single_terminal_login_sy.Base.{
  map, Bool, true, ℕ, ◌<◌, ◌≤◌, ◌^◌, ◌-◌, ◌≡◌, refl, ap, ◌∙◌, ◌⊎◌, inl, inr, false, List, [], ◌∷◌,
  arith,
}
use single_terminal_login_sy.Base.Text.{Text}
use single_terminal_login_sy.Base.Int.{ℤ, pos, negsuc, to_int, to_int_small}
use single_terminal_login_sy.Base.Decimal.RoundTrip.{strtoul-show_ℕ}
use single_terminal_login_sy.Exec.{done, fault, use_after_free, pure, ◌>>=◌, continue_of}
use single_terminal_login_sy.Mysql.{Mysql, ResultSet}
use single_terminal_login_sy.Mysql.Tables.{Login, Tables, active, sign_out, update_logout}
use single_terminal_login_sy.Mysql.Rows.{active-Rows, active-sign_out}
use single_terminal_login_sy.Mysql.Sound.{IsSound, update_logout-IsSound}
use single_terminal_login_sy.Mysql.Laws.{MysqlLaws, Plain, id_rows}
use single_terminal_login_sy.Mysql.Statements.{active_id_sql, logout_int_sql}
use single_terminal_login_sy.SqlApi.{SqlApi, MysqlResult, freed, update}
use single_terminal_login_sy.SqlApi.Laws.{Idle, select_lem, update_lem, get_result_lem}
use single_terminal_login_sy.Loginer.{LogoutReply, logged_out, finish_logout, leave, process_logout}
use single_terminal_login_sy.Loginer.Refine.{at_most_one}

sign_out_negative : (k : ℕ) (rs : List Login) → sign_out (negsuc k) rs ≡ rs
unfolding sign_out
sign_out_negative k [] = refl
sign_out_negative k (r ∷ rs) = ap (λ (l : List Login). r ∷ l) (sign_out_negative k rs)

to_int_wide : (n : ℕ) → 2 ^ 31 ≤ n → n < 2 ^ 32 → to_int n ≡ negsuc (2 ^ 32 - 1 - n)
unfolding to_int
to_int_wide n low high = ground arith

pub either {ℓ ℓ' ℓ''} : {A : Type ℓ} {B : Type ℓ'} {C : Type ℓ''} → A ⊎ B → (B → C) → A ⊎ C
either (inl a) f = inl a
either (inr b) f = inr (f b)

-- The row's number is read and the update asked for, or the call stops at the freed row.
leave_lem :
    {m : Mysql} (res : MysqlResult) (r : Login) (s : SqlApi m) (b : Bool)
    → res.rows_count ≡ 1
    → res.fields_count ≡ 1
    → res.mysql_row_vec ≡ map (freed b) (id_rows (r ∷ []))
    → r.id < 2 ^ 64
    → (leave res s ≡ (do ran ← update (logout_int_sql (to_int r.id)); pure (finish_logout ran)) s)
      ⊎ (leave res s ≡ (fault use_after_free, s))
leave_lem res r s true count fields rows wide =
    inl (rw (count, fields, rows, strtoul-show_ℕ r.id wide) refl)
leave_lem res r s false count fields rows wide = inr (rw (count, fields, rows) refl)

module _ {m : Mysql} (laws : MysqlLaws m) (user : Text) (plain : Plain user) (s : SqlApi m)
    (t : Tables) (idle : Idle laws s t) where
  open laws use {same, same_symm, same_trans, tables}

  -- A call that returns: nothing done, or `P`.
  abbrev pub LogoutReturns : (Tables → LogoutReply → Type 0) → Type 0
  LogoutReturns P =
      (reply : LogoutReply) × (s' : SqlApi m) × (after : Tables) × (process_logout user s
        ≡ (done reply, s'))
      × Idle laws s' after
      × (((reply.ret ≡ false) × (after ≡ t)) ⊎ P after reply)

  -- How a call may end: it returns, or it stops at the freed row, with nothing done.
  abbrev pub LogoutEnds : (Tables → LogoutReply → Type 0) → Type 0
  LogoutEnds P =
      LogoutReturns P
      ⊎ ((s' : SqlApi m) × (process_logout user s ≡ (fault use_after_free, s')) × Idle laws s' t)

  pub map-LogoutEnds :
      {P Q : Tables → LogoutReply → Type 0}
      → ((after : Tables) (reply : LogoutReply) → P after reply → Q after reply)
      → LogoutEnds P
      → LogoutEnds Q
  map-LogoutEnds f (inl (reply, s', after, e, i, how)) =
      inl (reply, s', after, e, i, either how (f after reply))
  map-LogoutEnds f (inr stop) = inr stop

  abbrev id_result : Tables → ResultSet
  id_result u = record { rows = id_rows (active same user u.logins); fields = 1 }

  -- A user with no row is told that the logout succeeded.
  pub logout_absent :
      active same user t.logins ≡ []
      → LogoutEnds (λ after reply. (reply ≡ logged_out) × (after ≡ t))
  unfolding process_logout
  logout_absent free =
      let (s', ends) =
        select_lem laws (active_id_sql user) id_result s (laws.selects_id user plain) idle in
      elim ends [
        | inl (e, i) ↦ inl (_, s', t, continue_of _ e, i, inl (refl, refl))
        | inr (e, p) ↦
            let (s'', res, got, rows, count, fields, i) = get_result_lem laws s' p in
            let left : leave res s'' ≡ (done logged_out, s'') = rw (count, free) in
            inl (_, s'', t, continue_of _ e ∙ continue_of _ got ∙ left, i, inr (refl, refl))
      ]

  -- A user with one row has the row signed out whose number is the row's, cast to int.
  pub logout_present :
      (r : Login)
      → active same user t.logins ≡ r ∷ []
      → r.id < 2 ^ 64
      → LogoutEnds (λ after reply. (reply ≡ logged_out) × (after ≡ update_logout (to_int r.id) t))
  unfolding process_logout
  logout_present r one wide =
      let (s', ends) =
        select_lem laws (active_id_sql user) id_result s (laws.selects_id user plain) idle in
      elim ends [
        | inl (e, i) ↦ inl (_, s', t, continue_of _ e, i, inl (refl, refl))
        | inr (e, p) ↦
            let (s'', res, got, (b, rows), count, fields, i) = get_result_lem laws s' p in
            elim (leave_lem res r s'' b (rw (count, one)) fields (rw (rows, one)) wide) [
              | inr stop ↦ inr (s'', continue_of _ e ∙ continue_of _ got ∙ stop, i)
              | inl left ↦
                  let (s₃, ends') =
                    update_lem laws (logout_int_sql (to_int r.id)) (update_logout (to_int r.id)) s''
                      (laws.updates_int (to_int r.id)) i in
                  let before = continue_of _ e ∙ continue_of _ got ∙ left in
                  elim ends' [
                    | inl (e', i') ↦ inl (_, s₃, _, before ∙ continue_of _ e', i', inr (refl, refl))
                    | inr (e', i') ↦ inl (_, s₃, _, before ∙ continue_of _ e', i', inl (refl, refl))
                  ]
            ]
      ]

  -- The user is logged in nowhere, and the invariant holds.
  abbrev pub SignedOut : Tables → LogoutReply → Type 0
  SignedOut after reply =
      (reply ≡ logged_out) × (active same user after.logins ≡ []) × IsSound same after

  -- For a user without quote and backslash, sound tables with row numbers below 2^31, and no row
  -- pending: processLogout reports a failure and changes nothing, or reports success and leaves the
  -- user logged in nowhere, with the tables sound; or it reads a freed row that has changed, which
  -- is undefined behaviour, and has changed nothing.
  pub process_logout-SignedOut : IsSound same t → t.next_id ≤ 2 ^ 31 → LogoutEnds SignedOut
  process_logout-SignedOut v ids = elim (at_most_one (active same user t.logins) (v.single user)) [
    | inl free ↦
        map-LogoutEnds (λ after reply h. (h.0, rw (h.1) free, rw (h.1) v)) (logout_absent free)
    | inr (r, one) ↦
        let (low, int) = active-Rows same user t.next_id t.logins one v.rows in
        map-LogoutEnds
          (λ after reply h.
            let a = h.1 ∙ ap (λ (y : ℤ). update_logout y t) (to_int_small r.id (omega arith)) in
            (
              h.0,
              rw a (unfold update_logout in active-sign_out same user t.logins one),
              rw a (update_logout-IsSound same (pos r.id) t v),
            ))
          (logout_present r one (omega arith))
  ]

  -- Whatever a call does to the tables is a sign-out of one row number, or nothing.
  pub process_logout-update_logout :
      IsSound same t
      → t.next_id ≤ 2 ^ 31
      → LogoutEnds (λ after reply. (after ≡ t) ⊎ ((z : ℤ) × (after ≡ update_logout z t)))
  process_logout-update_logout v ids =
      elim (at_most_one (active same user t.logins) (v.single user)) [
        | inl free ↦ map-LogoutEnds (λ after reply h. inl (h.1)) (logout_absent free)
        | inr (r, one) ↦
            let (low, int) = active-Rows same user t.next_id t.logins one v.rows in
            map-LogoutEnds (λ after reply h. inr (to_int r.id, h.1))
              (logout_present r one (omega arith))
      ]

  unmoved : (n : ℕ) → 2 ^ 31 ≤ n → n < 2 ^ 32 → update_logout (to_int n) t ≡ t
  unfolding update_logout
  unmoved n low high = rw (to_int_wide n low high, sign_out_negative (2 ^ 32 - 1 - n) t.logins)

  -- For a user without quote and backslash and no row pending: when the user's session has a row
  -- number from 2^31 up to 2^32, processLogout changes no row, and reports success unless a
  -- statement failed or it reads a freed row that has changed, which is undefined behaviour.
  pub process_logout_wide :
      (r : Login)
      → active same user t.logins ≡ r ∷ []
      → 2 ^ 31 ≤ r.id
      → r.id < 2 ^ 32
      → LogoutEnds (λ after reply. (reply ≡ logged_out) × (after ≡ t))
  process_logout_wide r one low high =
      map-LogoutEnds (λ after reply h. (h.0, h.1 ∙ unmoved r.id low high))
        (logout_present r one (omega arith))
