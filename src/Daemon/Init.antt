-- ===== src/Daemon/Init.antt =====
-- mylib/mylib_daemon/daemon.cpp, daemonInit, which makes the process a daemon. No main calls it.
use single_terminal_login_sy.Base.{ℕ, List, [], ◌∷◌, if◌then◌else◌}
use single_terminal_login_sy.Base.Int.{pos, negsuc, eq_ℤ}
use single_terminal_login_sy.Exec.{Exec, pure, crash, ◌>>=◌, ◌>>◌, exited}
use single_terminal_login_sy.Daemon.{Daemon, call}
use single_terminal_login_sy.Daemon.System.{
  Kernel, sys_ignore, sys_fork, sys_setsid, sys_close, sys_umask,
}

-- SIGALRM, SIGINT, SIGHUP, SIGQUIT, SIGPIPE, SIGTTOU, SIGTTIN, SIGCHLD and SIGTERM of Linux.
abbrev pub shielded : List ℕ
shielded = 14 ∷ 2 ∷ 1 ∷ 3 ∷ 13 ∷ 22 ∷ 21 ∷ 17 ∷ 15 ∷ []

module _ {X : Type 0} (sys : Kernel) where
  unfoldable pub ignore_all : List ℕ → Exec (Daemon X) (Unit {0})
  ignore_all [] = pure tt
  ignore_all (n ∷ ns) = do _ ← call sys (sys_ignore n); ignore_all ns

  abbrev pub detach : Exec (Daemon X) (Unit {0})
  detach = do
    _ ← call sys (sys_close (pos 0))
    _ ← call sys (sys_close (pos 1))
    _ ← call sys (sys_close (pos 2))
    _ ← call sys (sys_umask 0)
    pure tt

  abbrev pub new_session : Exec (Daemon X) (Unit {0})
  new_session = do
    session ← call sys sys_setsid
    if eq_ℤ session.ret (negsuc 0) then crash exited else detach

  -- The parent, in which fork gives the child's number, and a process in which it fails, end.
  unfoldable pub daemon_init : Exec (Daemon X) (Unit {0})
  daemon_init = do
    ignore_all shielded
    child ← call sys sys_fork
    if eq_ℤ child.ret (pos 0) then new_session else crash exited
