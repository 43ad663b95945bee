-- ===== src/SqlApi/Connect.antt =====
-- mylib/mylib_sql/sqlApi.cpp: the constructor, connectMysql and closeMysql.
use single_terminal_login_sy.Base.{ℕ, Bool, true, false, Option, none, some}
use single_terminal_login_sy.Base.Text.{Text, codes}
use single_terminal_login_sy.Exec.{Exec, pure}
use single_terminal_login_sy.Mysql.{Mysql}
use single_terminal_login_sy.SqlApi.{SqlApi, clean_result}

-- The calls of mysql/mysql.h that open and close a connection.
pub record MysqlOpen (m : Mysql) : Type 0 where
  -- mysql_init(NULL), none for NULL
  pub init : Option m.Conn
  -- mysql_real_connect(conn, host, user, passwd, db, port, 0, 0), false for NULL
  pub real_connect : m.Conn → Text → Text → Text → Text → ℕ → Bool × m.Conn
  pub close : m.Conn → m.Conn

-- The members _host, _user, _passwd, _db and _port.
pub record Settings : Type 0 where
  pub host : Text
  pub user : Text
  pub passwd : Text
  pub db : Text
  pub port : ℕ

abbrev settings_at : Text → Settings
settings_at host = record {
  host = host;
  user = codes "p2p_dev";
  passwd = codes "p2p_dev";
  db = codes "user";
  port = 3306;
}

-- What the constructor sets, and what that of service/messageReceiver/sqlApi.cpp sets.
abbrev pub settings : Settings
settings = settings_at (codes "127.0.0.1")

abbrev pub receiver_settings : Settings
receiver_settings = settings_at (codes "dev.xiaoying.work")

module _ {m : Mysql} (open_calls : MysqlOpen m) (set : Settings) where
  abbrev pub connected : Bool × m.Conn → Option (SqlApi m)
  connected (false, conn) = none
  connected (true, conn) = some (record { mysql = conn; mysql_result = clean_result })

  abbrev pub connect : Option m.Conn → Option (SqlApi m)
  connect none = none
  connect (some conn) =
      connected (open_calls.real_connect conn set.host set.user set.passwd set.db set.port)

  -- A new SqlApi after connectMysql; none is a return of -1.
  abbrev pub connect_mysql : Option (SqlApi m)
  connect_mysql = connect open_calls.init

module _ {m : Mysql} (open_calls : MysqlOpen m) where
  abbrev pub close_mysql : Exec (SqlApi m) Bool
  close_mysql s = pure true (record s { mysql = open_calls.close s.mysql })
