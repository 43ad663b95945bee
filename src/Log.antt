-- ===== src/Log.antt =====
-- mylib/mylib_log/logrecord.c: a line of the log. The message is the one that vsprintf makes of the format
-- and its arguments, and the time is the text of strftime.
pub mod Lines
use single_terminal_login_sy.Base.{
  ℕ, Bool, true, false, Option, none, some, List, [], ◌∷◌, ◌++◌, length, ◌+◌, ltb, ◌==◌,
  if◌then◌else◌,
}
use single_terminal_login_sy.Base.Text.{Text, codes}
use single_terminal_login_sy.Base.Int.{ℤ, pos, negsuc, is_neg, eq_ℤ}
use single_terminal_login_sy.Base.Decimal.{show_ℤ}
use single_terminal_login_sy.Exec.{Exec, pure, crash, ◌>>=◌, out_of_bounds}
use single_terminal_login_sy.Daemon.System.{
  Call, Reply, Trace, Kernel, sys_open, sys_write, sys_close,
}

abbrev pub max_string_len : ℕ
max_string_len = 10240

abbrev pub no_log_level : ℤ
no_log_level = pos 0

abbrev pub level_names : List Text
level_names = codes "NOLOG" ∷ codes "DEBUG" ∷ codes "INFO" ∷ codes "WARNING" ∷ codes "ERROR" ∷ []

abbrev pub nth : List Text → ℕ → Option Text
nth [] n = none
nth (name ∷ names) ℕ.zero = some name
nth (name ∷ names) (ℕ.suc n) = nth names n

-- LRLevelName[level], none out of the array.
abbrev pub level_name : ℤ → Option Text
level_name (negsuc n) = none
level_name (pos n) = nth level_names n

abbrev pub in_array : Option Text → Exec Trace Text
in_array none = crash out_of_bounds
in_array (some name) = pure name

-- sprintf(str + strLen, "%s", piece), which ends what it stores with a NUL.
abbrev pub sprintf : Text → Text → Exec Trace Text
sprintf str piece =
    if ltb (length str + length piece) max_string_len
    then pure (str ++ piece)
    else crash out_of_bounds

module _ (sys : Kernel) where
  abbrev pub call : Call → Exec Trace Reply
  call c t = pure (sys t c) ((c, sys t c) ∷ t)

  -- LR_Error_OpenFile: the descriptor of the log file, none for a return of -1.
  abbrev pub open_file : Exec Trace (Option ℤ)
  open_file = do
    pf ← call (sys_open (codes "./default.log"))
    if is_neg pf.ret then pure none else pure (some pf.ret)

  abbrev pub write_line : Text → Option ℤ → Exec Trace (Unit {0})
  write_line str none = pure tt
  write_line str (some pf) = do _ ← call (sys_write pf str); _ ← call (sys_close pf); pure tt

  unfoldable pub record_line : Text → Exec Trace (Unit {0})
  record_line str = do pf ← open_file; write_line str pf

  -- LR_Error_Core
  unfoldable pub error_core : Text → Text → ℤ → ℤ → Text → Exec Trace (Unit {0})
  error_core now file line level message = do
    timed ← sprintf [] (codes "[" ++ now ++ codes "]")
    filed ← sprintf timed (codes "[" ++ file)
    lined ← sprintf filed (codes " :" ++ show_ℤ line ++ codes "]")
    name ← in_array (level_name level)
    named ← sprintf lined (codes "[" ++ name ++ codes "]: ")
    told ← sprintf named message
    ended ← sprintf told (codes "\n")
    record_line ended

  -- LR_LOG
  unfoldable pub lr_log : Text → Text → ℤ → ℤ → Text → Exec Trace (Unit {0})
  lr_log now file line level message =
      if eq_ℤ level no_log_level then pure tt else error_core now file line level message
