-- ===== src/Mysql/Known.antt =====
-- Who may be logged in: the rows of user.t_user_login and the accounts of user.t_user_password.
use single_terminal_login_sy.Base.{◌<◌, ◌≤◌, inl, inr, Bool, List, [], ◌∷◌, arith, Bool-cases}
use single_terminal_login_sy.Base.Text.{Text}
use single_terminal_login_sy.Base.Int.{ℤ, pos, eq_ℤ}
use single_terminal_login_sy.Mysql.Tables.{Account, Login, count_user, count_password, sign_out}

module _ (same : Text → Text → Bool) where
  -- Every login was made with the name and the password of an account.
  abbrev pub Known : List Account → List Login → Type 0
  Known accounts [] = Unit {0}
  Known accounts (r ∷ rs) =
      (0 < count_password same r.user_name r.pass_word accounts) × Known accounts rs

  pub sign_out-Known :
      (z : ℤ) (accounts : List Account) (rs : List Login)
      → Known accounts rs
      → Known accounts (sign_out z rs)
  unfolding sign_out
  sign_out-Known z accounts [] k = tt
  sign_out-Known z accounts (r ∷ rs) (here, k) = elim (Bool-cases (eq_ℤ z (pos r.id))) [
    | inl hit ↦ rw hit (here, sign_out-Known z accounts rs k)
    | inr miss ↦ rw miss (here, sign_out-Known z accounts rs k)
  ]

  pub insert_account-Known :
      (a : Account) (accounts : List Account) (rs : List Login)
      → Known accounts rs
      → Known (a ∷ accounts) rs
  unfolding count_password
  insert_account-Known a accounts [] k = tt
  insert_account-Known a accounts (r ∷ rs) (here, k) =
      (omega arith, insert_account-Known a accounts rs k)

  -- An account that has the name and the password has the name.
  pub count_password_le :
      (user pass : Text) (accounts : List Account)
      → count_password same user pass accounts ≤ count_user same user accounts
  unfolding count_password count_user
  count_password_le user pass [] = omega arith
  count_password_le user pass (a ∷ accounts) = ground (arith, count_password_le user pass accounts)
