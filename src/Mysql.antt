-- ===== src/Mysql.antt =====
-- The MySQL client library (mysql/mysql.h) and the server behind it, which are not part of the
-- repository: the calls that sqlApi.cpp makes are parameters.
pub mod Tables
pub mod Statements
pub mod Laws
pub mod Rows
pub mod Sound
pub mod Known
use single_terminal_login_sy.Base.{ℕ, Bool, Option, List}
use single_terminal_login_sy.Base.Text.{Text}

-- What `mysql_store_result` returns: `mysql_fetch_row` yields the rows in turn, `mysql_num_rows`
-- is their number.
pub record ResultSet : Type 0 where
  pub rows : List (List Text)
  pub fields : ℕ

pub record Mysql : Type 1 where
  -- a `MYSQL*` with the state of the server behind it
  pub Conn : Type 0
  -- `mysql_query(conn, text)`; true is a return of 0
  pub query : Text → Conn → Bool × Conn
  -- `mysql_store_result`; none is NULL
  pub store_result : Conn → Option ResultSet
  -- Whether the memory of the fetched rows, which `mysql_free_result` gave back after the last
  -- query, still reads as it did. Nothing promises it: no law speaks of it.
  pub survives : Conn → Bool
