-- ===== src/Tests/Notices.antt =====
-- The older processLogin, when ann, who is logged in on device 5, logs in from device 9.
use single_terminal_login_sy.Base.{◌≡◌, refl, []}
use single_terminal_login_sy.Base.Int.{pos}
use single_terminal_login_sy.Loginer as Loginer
use single_terminal_login_sy.Exec.{on_done}
use single_terminal_login_sy.Receiver.Loginer.{Noticer, process_login}
use single_terminal_login_sy.Receiver.Loginer.Same.{without_fd, process_login-without_fd}
use single_terminal_login_sy.Tests.Server.{server}
use single_terminal_login_sy.Tests.Data.{ann, secret, start, session_of}
use single_terminal_login_sy.Tests.Kernels.{working}

abbrev noticer : Noticer server
noticer = record { sql_api = session_of start; trace = [] }

process_login-without_fd_example :
    ((process_login working ann secret (pos 9) 100 noticer).0
      ≡ on_done without_fd (Loginer.process_login ann secret (pos 9) 100 (session_of start)).0)
    × ((process_login working ann secret (pos 9) 100 noticer).1.sql_api
        ≡ (Loginer.process_login ann secret (pos 9) 100 (session_of start)).1)
process_login-without_fd_example =
    process_login-without_fd working (λ t old. refl) ann secret (pos 9) 100 noticer
