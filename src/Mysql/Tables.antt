-- ===== src/Mysql/Tables.antt =====
-- The two tables that the statements of loginer.cpp and register.cpp name, as values.
use single_terminal_login_sy.Base.{ℕ, suc, ◌+◌, Bool, ◌&&◌, List, [], ◌∷◌, ◌==◌, if◌then◌else◌}
use single_terminal_login_sy.Base.Text.{Text}
use single_terminal_login_sy.Base.Int.{ℤ, pos, eq_ℤ}

-- A row of user.t_user_password.
pub record Account : Type 0 where
  pub user_name : Text
  pub pass_word : Text
  pub create_time : ℕ

-- A row of user.t_user_login; status 1 is logged in, 2 is logged out.
pub record Login : Type 0 where
  pub id : ℕ
  pub user_name : Text
  pub pass_word : Text
  pub fd : ℤ
  pub status : ℕ
  pub create_time : ℕ

-- `logins` has the newest row first; `next_id` is the AUTO_INCREMENT counter of FuiId.
pub record Tables : Type 0 where
  pub accounts : List Account
  pub logins : List Login
  pub next_id : ℕ

-- `same` is the collation's equality of two texts.
module _ (same : Text → Text → Bool) where
  abbrev pub is_active : Text → Login → Bool
  is_active user r = same r.user_name user && r.status == 1

  -- where FstrUserName = user and FuiStatus = 1
  unfoldable pub active : Text → List Login → List Login
  active user [] = []
  active user (r ∷ rs) = if is_active user r then r ∷ active user rs else active user rs

  -- count(1) where FstrUserName = user
  unfoldable pub count_user : Text → List Account → ℕ
  count_user user [] = 0
  count_user user (a ∷ rest) = (if same a.user_name user then 1 else 0) + count_user user rest

  -- count(1) where FstrUserName = user and FstrPassWord = pass
  unfoldable pub count_password : Text → Text → List Account → ℕ
  count_password user pass [] = 0
  count_password user pass (a ∷ rest) =
      (if same a.user_name user && same a.pass_word pass then 1 else 0)
      + count_password user pass rest

-- set FuiStatus = 2 where FuiId = z, on the rows
unfoldable pub sign_out : ℤ → List Login → List Login
sign_out z [] = []
sign_out z (r ∷ rs) = (if eq_ℤ z (pos r.id) then record r { status = 2 } else r) ∷ sign_out z rs

unfoldable pub insert_account : Text → Text → ℕ → Tables → Tables
insert_account user pass now t = record t {
  accounts = record { user_name = user; pass_word = pass; create_time = now } ∷ t.accounts;
}

unfoldable pub insert_login : Text → Text → ℤ → ℕ → Tables → Tables
insert_login user pass fd now t = record t {
  logins =
      record {
        id = t.next_id;
        user_name = user;
        pass_word = pass;
        fd = fd;
        status = 1;
        create_time = now;
      }
      ∷ t.logins;
  next_id = suc t.next_id;
}

unfoldable pub update_logout : ℤ → Tables → Tables
update_logout z t = record t { logins = sign_out z t.logins }
