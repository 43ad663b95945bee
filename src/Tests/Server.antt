-- ===== src/Tests/Server.antt =====
-- A server that reads the statements of the program and keeps the two tables: it meets MysqlLaws.
pub mod Meaning
use single_terminal_login_sy.Base.{
  ℕ, suc, ◌≡◌, refl, Bool, true, false, Option, none, some, List, [], ◌∷◌, ◌++◌, length, ◌==◌,
  if◌then◌else◌,
}
use single_terminal_login_sy.Base.Text.{Text, codes, text_eq}
use single_terminal_login_sy.Base.Int.{ℤ, pos, negsuc}
use single_terminal_login_sy.Base.Decimal.{show_ℕ, read_digits}
use single_terminal_login_sy.Mysql.{Mysql, ResultSet}
use single_terminal_login_sy.Mysql.Laws.{one_cell, id_fd_rows, id_rows}
use single_terminal_login_sy.Mysql.Tables.{
  Tables, Login, active, count_user, count_password, insert_account, insert_login,
}
use single_terminal_login_sy.Mysql.Statements.{logout_sql}
use single_terminal_login_sy.Tests.Split.{split}

pub record Connection : Type 0 where
  pub tables : Tables
  pub last : Option ResultSet

abbrev negated : ℕ → ℤ
negated ℕ.zero = pos 0
negated (suc n) = negsuc n

-- The integer behind a blank, up to the first byte that is no digit.
abbrev pub read_int : Text → ℤ
read_int [] = pos 0
read_int (c ∷ s) =
    if c == b'-' then negated (read_digits 10 0 s) else pos (read_digits 10 0 (c ∷ s))

abbrev pub tail_text : Text → Text
tail_text [] = []
tail_text (c ∷ s) = s

-- Rows whose number the text names are signed out.
unfoldable pub sign_out_named : Text → List Login → List Login
sign_out_named sql [] = []
sign_out_named sql (r ∷ rs) =
    (if text_eq sql (logout_sql r.id) then record r { status = 2 } else r) ∷ sign_out_named sql rs

abbrev pub Reply : Type 0
Reply = Bool × Option ResultSet × Tables

abbrev pub answers : ResultSet → Tables → Reply
answers res t = (true, some res, t)

abbrev from_user : Text
from_user = codes "select count(1) from user.t_user_password where FstrUserName = "

abbrev from_active : Text
from_active = codes "select count(1) from user.t_user_login where FstrUserName = "

abbrev from_fd : Text
from_fd = codes "select FuiId,FuiFd from user.t_user_login where FstrUserName = "

abbrev into_login : Text
into_login =
    codes
      "insert into user.t_user_login (FstrUserName,FstrPassWord,FuiFd,FuiStatus,FuiCreateTime) values ("

-- `, fd, 1, now)` cut at the commas
abbrev pub insert_values : Text → Text → List Text → Tables → Reply
insert_values user pass (e ∷ fd ∷ st ∷ now ∷ []) t = (
  true,
  none,
  insert_login user pass (read_int (tail_text fd)) (read_digits 10 0 (tail_text now)) t,
)
insert_values user pass _ t = (false, none, t)

abbrev pub insert_pair : Text → Text → List Text → Tables → Reply
insert_pair user pass (e ∷ now ∷ []) t =
    (true, none, insert_account user pass (read_digits 10 0 (tail_text now)) t)
insert_pair user pass _ t = (false, none, t)

-- A statement cut at its quotes.
unfoldable pub run : Text → List Text → Tables → Reply
unfolding text_eq
run sql (k ∷ user ∷ e ∷ []) t =
    if text_eq k from_user
    then answers (one_cell (show_ℕ (count_user text_eq user t.accounts))) t
    else if text_eq k from_active
    then answers (one_cell (show_ℕ (length (active text_eq user t.logins)))) t
    else if text_eq k from_fd
    then answers (record { rows = id_fd_rows (active text_eq user t.logins); fields = 2 }) t
    else answers (record { rows = id_rows (active text_eq user t.logins); fields = 1 }) t
run sql (k ∷ user ∷ l ∷ pass ∷ e ∷ []) t =
    if text_eq k from_user
    then answers (one_cell (show_ℕ (count_password text_eq user pass t.accounts))) t
    else if text_eq k into_login
    then insert_values user pass (split b',' e) t
    else insert_pair user pass (split b',' e) t
run sql (k ∷ []) t = (true, none, record t { logins = sign_out_named sql t.logins })
run sql _ t = (false, none, t)

abbrev pub server : Mysql
server = record {
  Conn = Connection;
  query = λ sql c.
      let (ran, last, t) = run sql (split b'\'' sql) c.tables in
      (ran, record { tables = t; last = last });
  store_result = λ c. c.last;
  survives = λ c. true;
}
