-- ===== src/Mysql/Sound.antt =====
-- The invariant of user.t_user_login that the single-terminal rule needs, and who is touched by a
-- sign-out.
use single_terminal_login_sy.Base.{
  ℕ, ◌≤◌, ◌≡◌, refl, sym, ◌∙◌, inl, inr, Bool, true, false, List, [], ◌∷◌, length, arith,
  Bool-cases,
}
use single_terminal_login_sy.Base.Text.{Text}
use single_terminal_login_sy.Base.Int.{ℤ, pos, IsInt}
use single_terminal_login_sy.Mysql.Tables.{
  Login, Tables, is_active, active, sign_out, insert_login, update_logout, insert_account,
}
use single_terminal_login_sy.Mysql.Rows.{
  Rows, sign_out-Rows, active-Rows, length-active-sign_out, sign_out_above,
}

-- Every user is logged in on one device at most; numbers are distinct and below the counter.
pub record IsSound (same : Text → Text → Bool) (t : Tables) : Type 0 where
  pub rows : Rows t.next_id t.logins
  pub single : (user : Text) → length (active same user t.logins) ≤ 1

pub update_logout-IsSound :
    (same : Text → Text → Bool) (z : ℤ) (t : Tables)
    → IsSound same t
    → IsSound same (update_logout z t)
unfolding update_logout
update_logout-IsSound same z t v = record {
  rows = sign_out-Rows z t.next_id t.logins v.rows;
  single = λ user. omega (arith, length-active-sign_out same user z t.logins, v.single user);
}

pub insert_account-IsSound :
    (same : Text → Text → Bool) (user pass : Text) (now : ℕ) (t : Tables)
    → IsSound same t
    → IsSound same (insert_account user pass now t)
unfolding insert_account
insert_account-IsSound same user pass now t v = record { rows = v.rows; single = v.single }

module _ (same : Text → Text → Bool) (symm : (s t : Text) → same s t ≡ true → same t s ≡ true)
    (trans : (s t u : Text) → same s t ≡ true → same t u ≡ true → same s u ≡ true) where
  pub same_left : (u v w : Text) → same u v ≡ true → same w u ≡ same w v
  same_left u v w h = ground (arith, trans w u v, trans w v u, symm u v)

  -- The collation's equal names have the same rows.
  pub active_same :
      (u v : Text) (rs : List Login) → same u v ≡ true → active same u rs ≡ active same v rs
  unfolding active
  active_same u v [] h = refl
  active_same u v (r ∷ rs) h = ground (arith, same_left u v r.user_name h, active_same u v rs h)

  -- A new row for a user who has none keeps the invariant.
  pub insert_login-IsSound :
      (user pass : Text) (fd : ℤ) (now : ℕ) (t : Tables)
      → IsInt fd
      → active same user t.logins ≡ []
      → IsSound same t
      → IsSound same (insert_login user pass fd now t)
  unfolding insert_login active
  insert_login-IsSound user pass fd now t int free v = record {
    rows = (omega arith, int, v.rows);
    single = λ other. elim (Bool-cases (same user other)) [
      | inl hit ↦
          let gone = sym (active_same user other t.logins hit) ∙ free in
          rw (hit, gone) (omega arith)
      | inr miss ↦ rw miss (v.single other)
    ];
  }

  -- Signing a user's one device out leaves every other user's rows as they are.
  pub active-sign_out_other :
      (user other : Text) (n : ℕ) (rs : List Login) {r : Login}
      → active same user rs ≡ r ∷ []
      → same user other ≡ false
      → Rows n rs
      → active same other (sign_out (pos r.id) rs) ≡ active same other rs
  unfolding active sign_out
  active-sign_out_other user other n [] e h b = refl
  active-sign_out_other user other n (x ∷ rs) {r} e h b =
      elim (Bool-cases (is_active same user x)) [
        | inl hit ↦
            let p : x ≡ r = ground (arith, hit) in
            let below : sign_out (pos r.id) rs ≡ rs =
              rw (← p) (sign_out_above x.id x.id rs b.2 (omega arith)) in
            let not_other : same x.user_name other ≡ false =
              ground (arith, hit, symm x.user_name user, trans user x.user_name other) in
            ground (arith, below, not_other)
        | inr miss ↦
            let inner : active same user rs ≡ r ∷ [] = ground (arith, miss) in
            let low = (active-Rows same user x.id rs inner b.2).0 in
            ground (arith, active-sign_out_other user other x.id rs inner h b.2, low)
      ]
