-- ===== src/Tests/Logs.antt =====
-- A line of the log.
use single_terminal_login_sy.Base.{◌≡◌, refl, [], ltb, if◌then◌else◌, length}
use single_terminal_login_sy.Base.Text.{Text, codes}
use single_terminal_login_sy.Base.Int.{pos}
use single_terminal_login_sy.Exec.{done, fault, out_of_bounds}
use single_terminal_login_sy.Log.{lr_log, max_string_len}
use single_terminal_login_sy.Log.Lines.{log_line, logged, lr_log-fits}
use single_terminal_login_sy.Tests.Kernels.{working}

abbrev now : Text
now = codes "2019.08.17 10:00:00"

abbrev started : Text
started = log_line now (codes "main.cpp") (pos 29) (codes "INFO") (codes "epollFd:3")

lr_log-fits_example :
    lr_log working now (codes "main.cpp") (pos 29) (pos 2) (codes "epollFd:3") [] ≡ (
      if ltb (length started) max_string_len
      then (done tt, logged working started [])
      else (fault out_of_bounds, []))
lr_log-fits_example =
    lr_log-fits working now (codes "main.cpp") (pos 29) (pos 2) (codes "INFO") (codes "epollFd:3")
      [] refl refl
