-- ===== src/Loginer/Parts.antt =====
-- What each member function of Loginer does to the tables, or that it fails.
use single_terminal_login_sy.Base.{
  map, Bool, ℕ, ◌<◌, ◌^◌, ◌≡◌, refl, ◌⊎◌, inl, inr, true, false, none, some, [], ◌∷◌, length, ltb,
  arith,
}
use single_terminal_login_sy.Base.Text.{Text}
use single_terminal_login_sy.Base.Int.{ℤ, pos, IsInt, to_ull, to_int_small}
use single_terminal_login_sy.Base.Decimal.RoundTrip.{strtoul-show_ℕ, to_int-strtoul-show_ℤ}
use single_terminal_login_sy.Exec.{done, fault, assertion, use_after_free}
use single_terminal_login_sy.Mysql.{Mysql, ResultSet}
use single_terminal_login_sy.Mysql.Tables.{
  Login, Tables, active, count_password, insert_login, update_logout,
}
use single_terminal_login_sy.Mysql.Laws.{MysqlLaws, Plain, id_fd_rows}
use single_terminal_login_sy.Mysql.Statements.{
  count_password_sql, count_active_sql, active_fd_sql, logout_sql,
}
use single_terminal_login_sy.SqlApi.{SqlApi, MysqlResult, freed}
use single_terminal_login_sy.SqlApi.Laws.{Idle, select_lem, insert_lem, update_lem, get_result_lem}
use single_terminal_login_sy.SqlApi.Count.{select_count_lem}
use single_terminal_login_sy.Loginer.{
  is_valid_user_name_and_pass_word, is_already_logined, login, read_fd,
  get_already_logined_client_fd, set_logout_status_then_login,
}

read_fd_lem :
    {m : Mysql} (res : MysqlResult) (r : Login) (s : SqlApi m) (b : Bool)
    → res.rows_count ≡ 1
    → res.fields_count ≡ 2
    → res.mysql_row_vec ≡ map (freed b) (id_fd_rows (r ∷ []))
    → IsInt r.fd
    → r.id < 2 ^ 31
    → (read_fd res s ≡ (done (some (r.fd, r.id)), s)) ⊎ (read_fd res s ≡ (fault use_after_free, s))
unfolding to_ull
read_fd_lem res r s true count fields rows int small = inl (
    rw
      (
        count,
        fields,
        rows,
        strtoul-show_ℕ r.id (omega arith),
        to_int_small r.id small,
        to_int-strtoul-show_ℤ r.fd int,
      )
      refl)
read_fd_lem res r s false count fields rows int small = inr (rw (count, fields, rows) refl)

module _ {m : Mysql} (laws : MysqlLaws m) (user : Text) (plain : Plain user) where
  open laws use {same}

  module _ (pass : Text) (plain_pass : Plain pass) where
    -- The check fails, stops at the freed row, or says whether the table has the user with the password.
    pub is_valid_lem :
        (s : SqlApi m) {t : Tables}
        → count_password same user pass t.accounts < 2 ^ 31
        → Idle laws s t
        → (s' : SqlApi m) × Idle laws s' t
          × ((is_valid_user_name_and_pass_word user pass s ≡ (done none, s'))
              ⊎ (is_valid_user_name_and_pass_word user pass s
                  ≡ (done (some (ltb 0 (count_password same user pass t.accounts))), s'))
              ⊎ (is_valid_user_name_and_pass_word user pass s ≡ (fault use_after_free, s')))
    unfolding is_valid_user_name_and_pass_word
    is_valid_lem s {t} small idle =
        let (s', i, ends) =
          select_count_lem laws (count_password_sql user pass)
            (λ u. count_password same user pass u.accounts) s
            (laws.counts_password user pass plain plain_pass) small idle in
        elim ends [
          | inl e ↦ (s', i, inl (rw e))
          | inr (inl e) ↦ (s', i, inr (inl (rw e (ground arith))))
          | inr (inr e) ↦ (s', i, inr (inr (rw e)))
        ]

    pub login_lem :
        (fd : ℤ) (now : ℕ) (s : SqlApi m) {t : Tables}
        → Idle laws s t
        → (s' : SqlApi m) × (((login user pass fd now s ≡ (done true, s'))
              × Idle laws s' (insert_login user pass fd now t))
            ⊎ ((login user pass fd now s ≡ (done false, s')) × Idle laws s' t))
    unfolding login
    login_lem fd now s idle =
        insert_lem laws _ (insert_login user pass fd now) s
          (laws.inserts_login user pass fd now plain plain_pass) idle

    -- Three ends: both statements done, only the update, or neither.
    pub set_logout_lem :
        (id : ℕ) (fd : ℤ) (now : ℕ) (s : SqlApi m) {t : Tables}
        → Idle laws s t
        → (s' : SqlApi m) × (((set_logout_status_then_login id user pass fd now s ≡ (done true, s'))
              × Idle laws s' (insert_login user pass fd now (update_logout (pos id) t)))
            ⊎ ((set_logout_status_then_login id user pass fd now s ≡ (done false, s'))
                × Idle laws s' (update_logout (pos id) t))
            ⊎ ((set_logout_status_then_login id user pass fd now s ≡ (done false, s'))
                × Idle laws s' t))
    unfolding set_logout_status_then_login
    set_logout_lem id fd now s idle =
        let (s', ends) =
          update_lem laws (logout_sql id) (update_logout (pos id)) s (laws.updates id) idle in
        elim ends [
          | inl (e, i) ↦
              let (s'', last) = login_lem fd now s' i in
              elim last [
                | inl (e', i') ↦ (s'', inl ((rw (e, e')), i'))
                | inr (e', i') ↦ (s'', inr (inl ((rw (e, e')), i')))
              ]
          | inr (e, i) ↦ (s', inr (inr ((rw e), i)))
        ]

  -- A failed query says "logged in"; otherwise the answer is whether a row is, or the call stops at the freed row.
  pub is_already_logined_lem :
      (s : SqlApi m) {t : Tables}
      → length (active same user t.logins) < 2 ^ 31
      → Idle laws s t
      → (s' : SqlApi m) × Idle laws s' t
        × ((is_already_logined user s ≡ (done true, s'))
            ⊎ (is_already_logined user s ≡ (done (ltb 0 (length (active same user t.logins))), s'))
            ⊎ (is_already_logined user s ≡ (fault use_after_free, s')))
  unfolding is_already_logined
  is_already_logined_lem s {t} small idle =
      let (s', i, ends) =
        select_count_lem laws (count_active_sql user) (λ u. length (active same user u.logins)) s
          (laws.counts_active user plain) small idle in
      elim ends [
        | inl e ↦ (s', i, inl (rw e))
        | inr (inl e) ↦ (s', i, inr (inl (rw e (ground arith))))
        | inr (inr e) ↦ (s', i, inr (inr (rw e)))
      ]

  -- The result set of the descriptor query.
  abbrev fd_result : Tables → ResultSet
  fd_result u = record { rows = id_fd_rows (active same user u.logins); fields = 2 }

  -- With one row: its descriptor and number, or the stop at the freed row.
  pub get_fd_lem :
      (s : SqlApi m) {t : Tables} {r : Login}
      → active same user t.logins ≡ r ∷ []
      → IsInt r.fd
      → r.id < 2 ^ 31
      → Idle laws s t
      → (s' : SqlApi m) × Idle laws s' t
        × ((get_already_logined_client_fd user s ≡ (done none, s'))
            ⊎ (get_already_logined_client_fd user s ≡ (done (some (r.fd, r.id)), s'))
            ⊎ (get_already_logined_client_fd user s ≡ (fault use_after_free, s')))
  unfolding get_already_logined_client_fd
  get_fd_lem s {t} {r} one int small idle =
      let (s', ends) =
        select_lem laws (active_fd_sql user) fd_result s (laws.selects_fd user plain) idle in
      elim ends [
        | inl (e, i) ↦ (s', i, inl (rw e))
        | inr (e, p) ↦
            let (s'', res, got, (b, rows), count, fields, i) = get_result_lem laws s' p in
            elim (read_fd_lem res r s'' b (rw (count, one)) fields (rw (rows, one)) int small) [
              | inl read ↦ (s'', i, inr (inl (rw (e, got) read)))
              | inr read ↦ (s'', i, inr (inr (rw (e, got) read)))
            ]
      ]

  -- With no row: the call fails, or the assertion on the number of rows aborts.
  pub get_fd_none_lem :
      (s : SqlApi m) {t : Tables}
      → active same user t.logins ≡ []
      → Idle laws s t
      → (s' : SqlApi m) × Idle laws s' t
        × ((get_already_logined_client_fd user s ≡ (done none, s'))
            ⊎ (get_already_logined_client_fd user s ≡ (fault assertion, s')))
  unfolding get_already_logined_client_fd
  get_fd_none_lem s {t} free idle =
      let (s', ends) =
        select_lem laws (active_fd_sql user) fd_result s (laws.selects_fd user plain) idle in
      elim ends [
        | inl (e, i) ↦ (s', i, inl (rw e))
        | inr (e, p) ↦
            let (s'', res, got, (b, rows), count, fields, i) = get_result_lem laws s' p in
            let read : read_fd res s'' ≡ (fault assertion, s'') = rw (count, free) in
            (s'', i, inr (rw (e, got) read))
      ]
