-- ===== src/SqlApi.antt =====
-- mylib/mylib_sql/sqlApi.cpp: class SqlApi over the MySQL client library.
pub mod Laws
pub mod Count
pub mod Connect
use single_terminal_login_sy.Base.{
  ℕ, Bool, true, false, Option, none, some, List, [], ◌∷◌, ◌++◌, map, length, ◌==◌, if◌then◌else◌,
}
use single_terminal_login_sy.Base.Text.{Text}
use single_terminal_login_sy.Base.Int.{ℤ, to_int}
use single_terminal_login_sy.Base.Decimal.{strtoul}
use single_terminal_login_sy.Exec.{
  Exec, done, fault, out_of_bounds, use_after_free, pure, crash, ◌>>=◌, ◌>>◌, continue, require,
}
use single_terminal_login_sy.Mysql.{Mysql, ResultSet}

-- A MYSQL_ROW: a pointer to the cells of a fetched row, none once they are freed memory that no longer
-- reads as they did.
abbrev pub Row : Type 0
Row = Option (List Text)

-- mysql_result_t
pub record MysqlResult : Type 0 where
  pub mysql_row_vec : List Row
  pub rows_count : ℕ
  pub fields_count : ℕ

-- The object's `_mysql` and `_mysqlResult`.
pub record SqlApi (m : Mysql) : Type 0 where
  pub mysql : m.Conn
  pub mysql_result : MysqlResult

-- `row[j]` of a fetched row, and `rows[i]`; both are unchecked in C++.
abbrev pub at {ℓ} : {A : Type ℓ} → {S : Type ℓ} → List A → ℕ → Exec S A
at [] i = crash out_of_bounds
at (x ∷ xs) ℕ.zero = pure x
at (x ∷ xs) (ℕ.suc i) = at xs i

-- A read through the pointer. Freed memory that does not read as the row did is undefined: it stops
-- the run.
abbrev pub cells : {S : Type 0} → Row → Exec S (List Text)
cells none = crash use_after_free
cells (some row) = pure row

-- What becomes of a row's pointer when the result set is freed.
abbrev pub freed : Bool → List Text → Row
freed true row = some row
freed false row = none

-- The fetch loop: one `push_back` for each row.
unfoldable pub push_rows : List Row → List Row → List Row
push_rows vec [] = vec
push_rows vec (row ∷ rest) = push_rows (vec ++ row ∷ []) rest

unfoldable pub clean_result : MysqlResult
clean_result = record { mysql_row_vec = []; rows_count = 0; fields_count = 0 }

-- `_mysqlResult` after a result set was stored, fetched and freed.
abbrev pub fetched : Bool → MysqlResult → ResultSet → MysqlResult
fetched survives old res = record {
  mysql_row_vec = push_rows old.mysql_row_vec (map (freed survives) res.rows);
  rows_count = length res.rows;
  fields_count = res.fields;
}

module _ {m : Mysql} where
  abbrev pub stored : Option ResultSet → Exec (SqlApi m) Bool
  stored none s = (done false, s)
  stored (some res) s =
      (done true, record s { mysql_result = fetched (m.survives s.mysql) s.mysql_result res })

  -- true is a return of 0, false of -1
  unfoldable pub select : Text → Exec (SqlApi m) Bool
  select text s =
      let (ran, conn) = m.query text s.mysql in
      if ran
      then stored (m.store_result conn) (record s { mysql = conn })
      else (done false, record s { mysql = conn })

  unfoldable pub get_result : Exec (SqlApi m) MysqlResult
  unfolding clean_result
  get_result s = (done s.mysql_result, record s { mysql_result = clean_result })

  -- mysql_query of an insert or an update
  unfoldable pub insert : Text → Exec (SqlApi m) Bool
  insert text s = let (ran, conn) = m.query text s.mysql in (done ran, record s { mysql = conn })

  unfoldable pub update : Text → Exec (SqlApi m) Bool
  update text s = let (ran, conn) = m.query text s.mysql in (done ran, record s { mysql = conn })
