-- ===== src/Tests/Sessions.antt =====
-- The theorems on logging in, logging out and registering, at concrete sessions.
use single_terminal_login_sy.Base.{◌⊎◌, none, ◌+◌, ◌<◌, ◌^◌, ◌≡◌, refl, true, false, [], ◌∷◌, arith}
use single_terminal_login_sy.Base.Text.{codes, text_eq}
use single_terminal_login_sy.Base.Int.{pos, negsuc, to_int, to_ull}
use single_terminal_login_sy.Base.Decimal.{show_ℕ, show_ℤ, strtoul}
use single_terminal_login_sy.Base.Decimal.RoundTrip.{to_int-strtoul-show_ℤ}
use single_terminal_login_sy.Exec.{fault, use_after_free, done}
use single_terminal_login_sy.Mysql.{Mysql}
use single_terminal_login_sy.Mysql.Statements.{
  count_password_sql, count_user_sql, count_active_sql, active_fd_sql, insert_login_sql, logout_sql,
  insert_account_sql,
}
use single_terminal_login_sy.Mysql.Tables.{Tables, active, count_password, count_user}
use single_terminal_login_sy.Mysql.Sound.{IsSound}
use single_terminal_login_sy.SqlApi.{
  SqlApi, push_rows, clean_result, select, get_result, insert, update,
}
use single_terminal_login_sy.SqlApi.Count.{select_count}
use single_terminal_login_sy.Loginer.{
  LoginReply, accept, logged_out, process_login, is_valid_user_name_and_pass_word,
  is_already_logined, get_already_logined_client_fd, set_logout_status_then_login, login,
}
use single_terminal_login_sy.Loginer.Refine.{Fits, Ends, process_login-LoginStep}
use single_terminal_login_sy.Loginer.Single.{OnlyDevice}
use single_terminal_login_sy.Loginer.Terminal.{
  process_login-IsSound, process_login-OnlyDevice, process_login_wrong,
}
use single_terminal_login_sy.Loginer.Devices.{
  DeviceEnds, devices, assign, process_login-SessionStep, process_logout-assign,
}
use single_terminal_login_sy.Loginer.Logout.{
  LogoutEnds, SignedOut, process_logout-SignedOut, process_logout_wide,
}
use single_terminal_login_sy.Register.{finish_regist, is_already_regist, regist, process_regist}
use single_terminal_login_sy.Register.Outcomes.{
  IsUnique, process_regist-IsUnique, process_regist-accepts,
}
use single_terminal_login_sy.Tests.Split.{split}
use single_terminal_login_sy.Tests.Server.{Connection, server, run, sign_out_named}
use single_terminal_login_sy.Tests.Server.Meaning.{server_laws}
use single_terminal_login_sy.Tests.Data.{
  ann, secret, ann_row, start, session_of, session_of-Idle, start-IsSound, start-Fits,
  start-count_user,
}

process_login-LoginStep_example :
    Ends server_laws ann secret
      (pos 9)
      100
      (omega arith)
      (omega arith)
      start
      (process_login ann secret (pos 9) 100 (session_of start))
process_login-LoginStep_example =
    process_login-LoginStep server_laws ann secret (pos 9) 100 (omega arith) (omega arith)
      (session_of start) start start-IsSound start-Fits (session_of-Idle start)

process_login-IsSound_example :
    IsSound server_laws.same
      (server_laws.tables (process_login ann secret (pos 9) 100 (session_of start)).1.mysql)
process_login-IsSound_example =
    process_login-IsSound server_laws ann secret (pos 9) 100 (omega arith) (omega arith)
      (omega arith) (session_of start) start start-IsSound start-Fits (session_of-Idle start)

-- The session after ann logged in from device 9 while device 5 was logged in.
replaced_run :
    process_login ann secret (pos 9) 100 (session_of start)
    ≡ (done (accept (pos 5)), (process_login ann secret (pos 9) 100 (session_of start)).1)
unfolding process_login is_valid_user_name_and_pass_word is_already_logined
    get_already_logined_client_fd set_logout_status_then_login login select_count select get_result
    insert update push_rows clean_result run count_password_sql count_active_sql active_fd_sql
    insert_login_sql logout_sql text_eq strtoul to_int to_ull show_ℕ show_ℤ split active
    count_password sign_out_named
replaced_run = refl

-- The same server, with a client library that has reused the memory of the freed rows.
abbrev reusing : Mysql
reusing = record {
  Conn = Connection;
  query = λ text c. server.query text c;
  store_result = λ c. c.last;
  survives = λ c. false;
}

abbrev reusing_session : SqlApi reusing
reusing_session = record {
  mysql = record { tables = start; last = none };
  mysql_result = record { mysql_row_vec = []; rows_count = 0; fields_count = 0 };
}

-- The first count of a login is a read of changed memory then.
reusing_run : (process_login ann secret (pos 9) 100 reusing_session).0 ≡ fault use_after_free
unfolding process_login is_valid_user_name_and_pass_word is_already_logined
    get_already_logined_client_fd set_logout_status_then_login login select_count select get_result
    insert update push_rows clean_result run count_password_sql count_active_sql active_fd_sql
    insert_login_sql logout_sql text_eq strtoul to_int to_ull show_ℕ show_ℤ split active
    count_password sign_out_named
reusing_run = refl

process_login-OnlyDevice_example :
    OnlyDevice server_laws ann secret
      (pos 9)
      100
      start
      (accept (pos 5))
      (server_laws.tables (process_login ann secret (pos 9) 100 (session_of start)).1.mysql)
process_login-OnlyDevice_example =
    process_login-OnlyDevice server_laws ann secret (pos 9) 100 (omega arith) (omega arith)
      (omega arith) (session_of start) start start-IsSound start-Fits (session_of-Idle start)
      (accept (pos 5)) (process_login ann secret (pos 9) 100 (session_of start)).1 replaced_run refl

-- ann with a password that is not hers
wrong-Fits : Fits start server_laws.same ann (codes "no")
unfolding server_laws count_password text_eq
wrong-Fits = record { accounts = omega arith; ids = omega arith }

process_login_wrong_example :
    (s' : SqlApi server) × (server_laws.tables s'.mysql ≡ start)
    × (((reply : LoginReply) × (process_login ann (codes "no") (pos 9) 100 (session_of start)
            ≡ (done reply, s'))
          × (reply.ret ≡ false)
          × (reply.logout_fd ≡ negsuc 0))
        ⊎ (process_login ann (codes "no") (pos 9) 100 (session_of start)
            ≡ (fault use_after_free, s')))
process_login_wrong_example =
    process_login_wrong server_laws ann (codes "no") (pos 9) 100 (omega arith) (omega arith)
      (omega arith) (session_of start) start start-IsSound wrong-Fits (session_of-Idle start)
      (unfold server_laws count_password text_eq in refl)

process_logout-SignedOut_example :
    LogoutEnds server_laws ann
      (omega arith)
      (session_of start)
      start
      (session_of-Idle start)
      (SignedOut server_laws ann (omega arith) (session_of start) start (session_of-Idle start))
process_logout-SignedOut_example =
    process_logout-SignedOut server_laws ann (omega arith) (session_of start) start
      (session_of-Idle start) start-IsSound (omega arith)

process_login-SessionStep_example :
    DeviceEnds server_laws ann
      (pos 9)
      start
      (process_login ann secret (pos 9) 100 (session_of start))
process_login-SessionStep_example =
    process_login-SessionStep server_laws ann secret (pos 9) 100 (session_of start) start
      (omega arith) (omega arith) start-IsSound start-Fits (session_of-Idle start)

process_logout-assign_example :
    LogoutEnds server_laws ann
      (omega arith)
      (session_of start)
      start
      (session_of-Idle start)
      (λ after reply.
        (reply ≡ logged_out)
        × (devices server_laws.same after
            ≡ assign server_laws.same ann none (devices server_laws.same start)))
process_logout-assign_example =
    process_logout-assign server_laws ann (session_of start) start (omega arith)
      (session_of-Idle start) start-IsSound (omega arith)

-- ann on the row 2^31 + 7
abbrev wide_start : Tables
wide_start = record start { logins = record ann_row { id = 2 ^ 31 + 7 } ∷ []; next_id = 2 ^ 31 + 8 }

process_logout_wide_example :
    LogoutEnds server_laws ann
      (omega arith)
      (session_of wide_start)
      wide_start
      (session_of-Idle wide_start)
      (λ after reply. (reply ≡ logged_out) × (after ≡ wide_start))
process_logout_wide_example =
    process_logout_wide server_laws ann (omega arith) (session_of wide_start) wide_start
      (session_of-Idle wide_start) (record ann_row { id = 2 ^ 31 + 7 })
      (unfold server_laws active text_eq in refl) (omega arith) (omega arith)

start-IsUnique : IsUnique server_laws.same start
unfolding server_laws count_user
start-IsUnique user = ground arith

process_regist-IsUnique_example :
    IsUnique server_laws.same
      (server_laws.tables (process_regist ann secret 100 [] (session_of start)).1.mysql)
process_regist-IsUnique_example =
    process_regist-IsUnique server_laws ann secret 100 [] (omega arith) (omega arith)
      (session_of start) start start-count_user (session_of-Idle start) start-IsUnique

bob_small : count_user server_laws.same (codes "bob") start.accounts < 2 ^ 31
unfolding server_laws count_user text_eq
bob_small = omega arith

regist_run : process_regist (codes "bob") secret 100 [] (session_of start) ≡ (
  done (finish_regist [] true),
  (process_regist (codes "bob") secret 100 [] (session_of start)).1,
)
unfolding process_regist is_already_regist regist select_count select get_result insert push_rows
    clean_result run count_user_sql insert_account_sql text_eq strtoul to_int show_ℕ split
    count_user
regist_run = refl

process_regist-accepts_example :
    0
    < count_password server_laws.same
        (codes "bob")
        secret
        (server_laws.tables
          (process_regist (codes "bob") secret 100 [] (session_of start)).1.mysql).accounts
process_regist-accepts_example =
    process_regist-accepts server_laws (codes "bob") secret 100 [] (omega arith) (omega arith)
      (session_of start) start bob_small (session_of-Idle start) (finish_regist [] true)
      (process_regist (codes "bob") secret 100 [] (session_of start)).1 regist_run refl

to_int-strtoul-show_ℤ_example : to_int (strtoul (show_ℤ (negsuc 0))) ≡ negsuc 0
to_int-strtoul-show_ℤ_example = to_int-strtoul-show_ℤ (negsuc 0) (omega arith)
