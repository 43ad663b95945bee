-- ===== src/Mysql/Rows.antt =====
-- The rows of user.t_user_login that are logged in, under the statements that change them.
use single_terminal_login_sy.Base.{
  ℕ, ◌≤◌, ◌<◌, ◌≡◌, refl, ap, inl, inr, Bool, List, [], ◌∷◌, length, arith, Bool-cases,
}
use single_terminal_login_sy.Base.Text.{Text}
use single_terminal_login_sy.Base.Int.{ℤ, pos, IsInt, eq_ℤ}
use single_terminal_login_sy.Mysql.Tables.{Login, is_active, active, sign_out}

-- Rows, newest first, whose numbers fall and stay under `n`, and whose descriptors are C ints.
abbrev pub Rows : ℕ → List Login → Type 0
Rows n [] = Unit {0}
Rows n (r ∷ rs) = (r.id < n) × IsInt r.fd × Rows r.id rs

pub Rows-mono : {m n : ℕ} (rs : List Login) → m ≤ n → Rows m rs → Rows n rs
Rows-mono [] h b = tt
Rows-mono (r ∷ rs) h b = (omega arith, b.1, b.2)

pub sign_out-Rows : (z : ℤ) (n : ℕ) (rs : List Login) → Rows n rs → Rows n (sign_out z rs)
unfolding sign_out
sign_out-Rows z n [] b = tt
sign_out-Rows z n (r ∷ rs) b = elim (Bool-cases (eq_ℤ z (pos r.id))) [
  | inl hit ↦ rw hit (b.0, b.1, sign_out-Rows z r.id rs b.2)
  | inr miss ↦ rw miss (b.0, b.1, sign_out-Rows z r.id rs b.2)
]

-- A number under which no row stands signs nobody out.
pub sign_out_above :
    (z : ℕ) (n : ℕ) (rs : List Login) → Rows n rs → n ≤ z → sign_out (pos z) rs ≡ rs
unfolding sign_out
sign_out_above z n [] b h = refl
sign_out_above z n (x ∷ rs) b h = ground (arith, sign_out_above z x.id rs b.2)

nil_of_length {ℓ} : {A : Type ℓ} (xs : List A) → length xs ≤ 0 → xs ≡ []
nil_of_length [] h = refl
nil_of_length (x ∷ xs) h = absurd (omega arith)

module _ (same : Text → Text → Bool) where
  -- The row that is logged in is one of the rows.
  pub active-Rows :
      (user : Text) (n : ℕ) (rs : List Login) {r : Login} {rest : List Login}
      → active same user rs ≡ r ∷ rest
      → Rows n rs
      → (r.id < n) × IsInt r.fd
  unfolding active
  active-Rows user n [] e b = cc
  active-Rows user n (x ∷ rs) {r} {rest} e b = elim (Bool-cases (is_active same user x)) [
    | inl hit ↦ let p : x ≡ r = ground (arith, hit) in rw (← p) (b.0, b.1)
    | inr miss ↦
        let inner : active same user rs ≡ r ∷ rest = ground (arith, miss) in
        let (low, int) = active-Rows user x.id rs inner b.2 in (omega arith, int)
  ]

  pub length-active-sign_out :
      (user : Text) (z : ℤ) (rs : List Login)
      → length (active same user (sign_out z rs)) ≤ length (active same user rs)
  unfolding active sign_out
  length-active-sign_out user z [] = omega arith
  length-active-sign_out user z (r ∷ rs) = ground (arith, length-active-sign_out user z rs)

  -- Signing out the one row that is logged in leaves none.
  pub active-sign_out :
      (user : Text) (rs : List Login) {r : Login}
      → active same user rs ≡ r ∷ []
      → active same user (sign_out (pos r.id) rs) ≡ []
  unfolding active sign_out
  active-sign_out user [] e = cc
  active-sign_out user (x ∷ rs) {r} e = elim (Bool-cases (is_active same user x)) [
    | inl hit ↦
        let p : x ≡ r = ground (arith, hit) in
        let none_left : active same user rs ≡ [] = ground (arith, hit) in
        let gone : active same user (sign_out (pos r.id) rs) ≡ [] =
          nil_of_length _
            (omega (arith, length-active-sign_out user (pos r.id) rs, ap length none_left)) in
        ground (arith, gone, ap (λ (q : Login). q.id) p)
    | inr miss ↦
        let inner : active same user rs ≡ r ∷ [] = ground (arith, miss) in
        ground (arith, active-sign_out user rs inner)
  ]
