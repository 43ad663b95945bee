-- ===== src/Mysql/Laws.antt =====
-- What the code relies on from MySQL: the meaning of its statements on the two tables, for texts
-- that need no escaping, and that a statement which fails changes nothing.
use single_terminal_login_sy.Base.{
  ℕ, ◌≡◌, ◌≢◌, ◌⊎◌, Bool, true, false, none, some, List, [], ◌∷◌, length,
}
use single_terminal_login_sy.Base.Text.{Text}
use single_terminal_login_sy.Base.Int.{ℤ, pos}
use single_terminal_login_sy.Base.Decimal.{show_ℕ, show_ℤ}
use single_terminal_login_sy.Mysql.{Mysql, ResultSet}
use single_terminal_login_sy.Mysql.Tables.{
  Tables, Login, active, count_user, count_password, insert_account, insert_login, update_logout,
}
use single_terminal_login_sy.Mysql.Statements.{
  count_password_sql, count_user_sql, count_active_sql, active_fd_sql, active_id_sql,
  insert_login_sql, logout_int_sql, logout_sql, insert_account_sql,
}

-- A text that stands between quotes as it is: no quote and no backslash.
abbrev pub Plain : Text → Type 0
Plain [] = Unit
Plain (c ∷ s) = (c ≢ b'\'') × (c ≢ b'\\') × Plain s

abbrev pub one_cell : Text → ResultSet
one_cell cell = record { rows = (cell ∷ []) ∷ []; fields = 1 }

abbrev pub id_fd_rows : List Login → List (List Text)
id_fd_rows [] = []
id_fd_rows (r ∷ rs) = (show_ℕ r.id ∷ show_ℤ r.fd ∷ []) ∷ id_fd_rows rs

abbrev pub id_rows : List Login → List (List Text)
id_rows [] = []
id_rows (r ∷ rs) = (show_ℕ r.id ∷ []) ∷ id_rows rs

module _ (m : Mysql) (tables : m.Conn → Tables) where
  -- A select that fails in `mysql_query` or `mysql_store_result`, or yields the rows `f` says.
  abbrev pub Selects : Text → (Tables → ResultSet) → Type 0
  Selects sql f =
      (c : m.Conn)
      → (tables (m.query sql c).1 ≡ tables c)
        × (((m.query sql c).0 ≡ false)
            ⊎ (m.store_result (m.query sql c).1 ≡ none)
            ⊎ (((m.query sql c).0 ≡ true)
                × (m.store_result (m.query sql c).1 ≡ some (f (tables c)))))

  -- A statement that does what `f` says, or fails and does nothing.
  abbrev pub Changes : Text → (Tables → Tables) → Type 0
  Changes sql f =
      (c : m.Conn)
      → (((m.query sql c).0 ≡ true) × (tables (m.query sql c).1 ≡ f (tables c)))
        ⊎ (((m.query sql c).0 ≡ false) × (tables (m.query sql c).1 ≡ tables c))

pub record MysqlLaws (m : Mysql) : Type 0 where
  pub tables : m.Conn → Tables
  pub same : Text → Text → Bool
  pub same_refl : (s : Text) → same s s ≡ true
  pub same_symm : (s t : Text) → same s t ≡ true → same t s ≡ true
  pub same_trans : (s t u : Text) → same s t ≡ true → same t u ≡ true → same s u ≡ true
  pub counts_password :
      (user pass : Text)
      → Plain user
      → Plain pass
      → Selects m tables
          (count_password_sql user pass)
          (λ t. one_cell (show_ℕ (count_password same user pass t.accounts)))
  pub counts_user :
      (user : Text)
      → Plain user
      → Selects m tables
          (count_user_sql user)
          (λ t. one_cell (show_ℕ (count_user same user t.accounts)))
  pub counts_active :
      (user : Text)
      → Plain user
      → Selects m tables
          (count_active_sql user)
          (λ t. one_cell (show_ℕ (length (active same user t.logins))))
  pub selects_fd :
      (user : Text)
      → Plain user
      → Selects m tables
          (active_fd_sql user)
          (λ t. record { rows = id_fd_rows (active same user t.logins); fields = 2 })
  pub selects_id :
      (user : Text)
      → Plain user
      → Selects m tables
          (active_id_sql user)
          (λ t. record { rows = id_rows (active same user t.logins); fields = 1 })
  pub inserts_login :
      (user pass : Text) (fd : ℤ) (now : ℕ)
      → Plain user
      → Plain pass
      → Changes m tables (insert_login_sql user pass fd now) (insert_login user pass fd now)
  pub updates_int : (id : ℤ) → Changes m tables (logout_int_sql id) (update_logout id)
  pub updates : (id : ℕ) → Changes m tables (logout_sql id) (update_logout (pos id))
  pub inserts_account :
      (user pass : Text) (now : ℕ)
      → Plain user
      → Plain pass
      → Changes m tables (insert_account_sql user pass now) (insert_account user pass now)
