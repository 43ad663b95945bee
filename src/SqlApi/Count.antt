-- ===== src/SqlApi/Count.antt =====
-- The common shape of isValidUserNameAndPassWord, isAlreadyLogined and isAlreadyRegist: run a
-- `select count(1)`, assert one row of one field, and read the number.
use single_terminal_login_sy.Base.{
  map, refl, ℕ, ◌<◌, ◌^◌, ◌≡◌, ◌⊎◌, inl, inr, Bool, true, false, Option, none, some, ◌==◌, arith,
}
use single_terminal_login_sy.Base.Text.{Text}
use single_terminal_login_sy.Base.Int.{ℤ, pos, to_int, to_int_small}
use single_terminal_login_sy.Base.Decimal.{show_ℕ, strtoul}
use single_terminal_login_sy.Base.Decimal.RoundTrip.{strtoul-show_ℕ}
use single_terminal_login_sy.Exec.{Exec, fault, use_after_free, done, pure, ◌>>=◌, ◌>>◌, require}
use single_terminal_login_sy.Mysql.{Mysql}
use single_terminal_login_sy.Mysql.Tables.{Tables}
use single_terminal_login_sy.Mysql.Laws.{MysqlLaws, Selects, one_cell}
use single_terminal_login_sy.SqlApi.{SqlApi, MysqlResult, freed, cells, at, select, get_result}
use single_terminal_login_sy.SqlApi.Laws.{Idle, select_lem, get_result_lem}

-- `(int) strtoul(mysqlRowVec[0][0], NULL, 0)` behind the two assertions.
abbrev pub read_count : {S : Type 0} → MysqlResult → Exec S (Option ℤ)
read_count r = do
  require (r.rows_count == 1)
  require (r.fields_count == 1)
  row ← at r.mysql_row_vec 0
  values ← cells row
  cell ← at values 0
  pure (some (to_int (strtoul cell)))

module _ {m : Mysql} where
  abbrev pub counted : Bool → Exec (SqlApi m) (Option ℤ)
  counted false = pure none
  counted true = do r ← get_result; read_count r

  -- none is the early return of -1
  unfoldable pub select_count : Text → Exec (SqlApi m) (Option ℤ)
  select_count sql = do ran ← select sql; counted ran

read_count_lem :
    {S : Type 0} (r : MysqlResult) (n : ℕ) (s : S) (b : Bool)
    → r.rows_count ≡ 1
    → r.fields_count ≡ 1
    → r.mysql_row_vec ≡ map (freed b) (one_cell (show_ℕ n)).rows
    → n < 2 ^ 31
    → (read_count r s ≡ (done (some (pos n)), s)) ⊎ (read_count r s ≡ (fault use_after_free, s))
read_count_lem r n s true count fields rows small =
    inl (rw (count, fields, rows, strtoul-show_ℕ n (omega arith), to_int_small n small) refl)
read_count_lem r n s false count fields rows small = inr (rw (count, fields, rows) refl)

module _ {m : Mysql} (laws : MysqlLaws m) where
  open laws use {tables}

  -- A count fails, gives the number, or stops at the freed row, and changes no table.
  pub select_count_lem :
      (sql : Text) (n : Tables → ℕ) (s : SqlApi m) {t : Tables}
      → Selects m tables sql (λ u. one_cell (show_ℕ (n u)))
      → n t < 2 ^ 31
      → Idle laws s t
      → (s' : SqlApi m) × Idle laws s' t
        × ((select_count sql s ≡ (done none, s'))
            ⊎ (select_count sql s ≡ (done (some (pos (n t))), s'))
            ⊎ (select_count sql s ≡ (fault use_after_free, s')))
  unfolding select_count
  select_count_lem sql n s {t} means small idle =
      let (s', ends) = select_lem laws sql (λ u. one_cell (show_ℕ (n u))) s means idle in
      elim ends [
        | inl (e, i) ↦ (s', i, inl (rw e))
        | inr (e, p) ↦
            let (s'', r, got, (b, rows), count, fields, i) = get_result_lem laws s' p in
            elim (read_count_lem r (n t) s'' b count fields rows small) [
              | inl read ↦ (s'', i, inr (inl (rw (e, got) read)))
              | inr read ↦ (s'', i, inr (inr (rw (e, got) read)))
            ]
      ]
