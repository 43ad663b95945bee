-- ===== src/Tests/Data.antt =====
-- The tables and the connection that the tests start from.
use single_terminal_login_sy.Base.{◌<◌, ◌^◌, ◌≡◌, refl, none, [], ◌∷◌, arith}
use single_terminal_login_sy.Base.Text.{Text, codes, text_eq}
use single_terminal_login_sy.Base.Int.{pos}
use single_terminal_login_sy.Mysql.Tables.{Tables, Login, active, count_password, count_user}
use single_terminal_login_sy.Mysql.Sound.{IsSound}
use single_terminal_login_sy.SqlApi.{SqlApi}
use single_terminal_login_sy.SqlApi.Laws.{Idle}
use single_terminal_login_sy.Loginer.Refine.{Fits}
use single_terminal_login_sy.Tests.Server.{server}
use single_terminal_login_sy.Tests.Server.Meaning.{server_laws}

abbrev pub ann : Text
ann = codes "ann"

abbrev pub secret : Text
secret = codes "pw"

abbrev pub ann_row : Login
ann_row = record {
  id = 7;
  user_name = ann;
  pass_word = secret;
  fd = pos 5;
  status = 1;
  create_time = 90;
}

-- ann is logged in on the device 5.
abbrev pub start : Tables
start = record {
  accounts = record { user_name = ann; pass_word = secret; create_time = 80 } ∷ [];
  logins = ann_row ∷ [];
  next_id = 8;
}

abbrev pub session_of : Tables → SqlApi server
session_of t = record {
  mysql = record { tables = t; last = none };
  mysql_result = record { mysql_row_vec = []; rows_count = 0; fields_count = 0 };
}

pub session_of-Idle : (t : Tables) → Idle server_laws (session_of t) t
unfolding server_laws
session_of-Idle t = record { no_rows = refl; holds = refl }

pub start-IsSound : IsSound server_laws.same start
unfolding server_laws active
start-IsSound = record { rows = omega arith; single = λ user. ground arith }

pub start-Fits : Fits start server_laws.same ann secret
unfolding server_laws count_password text_eq
start-Fits = record { accounts = omega arith; ids = omega arith }

pub start-active : active server_laws.same ann start.logins ≡ ann_row ∷ []
unfolding server_laws active text_eq
start-active = refl

pub start-count_user : count_user server_laws.same ann start.accounts < 2 ^ 31
unfolding server_laws count_user text_eq
start-count_user = omega arith
