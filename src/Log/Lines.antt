-- ===== src/Log/Lines.antt =====
-- logrecord.c, LR_LOG: what is written, and when it fits.
use single_terminal_login_sy.Base.{
  ◌+◌, ◌≡◌, refl, ◌∙◌, inl, inr, true, false, some, List, [], ◌∷◌, ◌++◌, length, ltb, ◌<◌,
  if◌then◌else◌, append_assoc, append-nil, arith, Bool-cases,
}
use single_terminal_login_sy.Base.Text.{Text, codes}
use single_terminal_login_sy.Base.Int.{is_neg, ℤ, eq_ℤ}
use single_terminal_login_sy.Base.Decimal.{show_ℤ}
use single_terminal_login_sy.Exec.{done, Exec, fault, ◌>>=◌, out_of_bounds}
use single_terminal_login_sy.Daemon.System.{Call, sys_open, sys_write, sys_close, Trace, Kernel}
use single_terminal_login_sy.Log.{
  lr_log, error_core, record_line, sprintf, max_string_len, level_name, no_log_level,
}

pub length-append : (s t : Text) → length (s ++ t) ≡ length s + length t
length-append [] t = omega arith
length-append (c ∷ s) t = omega (arith, length-append s t)

-- The pieces of a line, put together.
abbrev pub concat : List Text → Text
concat [] = []
concat (p ∷ ps) = p ++ concat ps

-- Pieces stored one after the other.
abbrev sprintf_all : Text → List Text → (Text → Exec Trace (Unit {0})) → Exec Trace (Unit {0})
sprintf_all str [] k = k str
sprintf_all str (p ∷ ps) k = do s ← sprintf str p; sprintf_all s ps k

-- They fit when all of them do, and otherwise nothing but the memory is touched.
sprintf_all_lem :
    (str : Text) (ps : List Text) (k : Text → Exec Trace (Unit {0})) (t : Trace)
    → length str < max_string_len
    → sprintf_all str ps k t ≡ (
        if ltb (length (str ++ concat ps)) max_string_len
        then k (str ++ concat ps) t
        else (fault out_of_bounds, t))
sprintf_all_lem str [] k t fits =
    let here : ltb (length str) max_string_len ≡ true = ground arith in rw (append-nil, here) refl
sprintf_all_lem str (p ∷ ps) k t fits =
    elim (Bool-cases (ltb (length str + length p) max_string_len)) [
      | inl room ↦
          (let longer : length (str ++ p) < max_string_len = ground (arith, length-append str p) in
            rw room (sprintf_all_lem (str ++ p) ps k t longer ∙ rw append_assoc refl))
      | inr full ↦
          (let late : ltb (length (str ++ (p ++ concat ps))) max_string_len ≡ false =
              ground (arith, length-append str (p ++ concat ps), length-append p (concat ps)) in
            rw (full, late) refl)
    ]

-- The line of a message: its time, file, line number and level, and the message.
abbrev pub pieces : Text → Text → ℤ → Text → Text → List Text
pieces now file line name message =
    (codes "[" ++ now ++ codes "]")
    ∷ (codes "[" ++ file)
    ∷ (codes " :" ++ show_ℤ line ++ codes "]")
    ∷ (codes "[" ++ name ++ codes "]: ")
    ∷ message
    ∷ codes "\n"
    ∷ []

abbrev pub log_line : Text → Text → ℤ → Text → Text → Text
log_line now file line name message = concat (pieces now file line name message)

module _ (sys : Kernel) where
  abbrev pub after_call : Call → Trace → Trace
  after_call c t = (c, sys t c) ∷ t

  -- The calls that put a line into the file that was opened as `pf`.
  abbrev pub written : ℤ → Text → Trace → Trace
  written pf line t = after_call (sys_close pf) (after_call (sys_write pf line) t)

  -- The file is opened, and the line is written when this succeeds.
  abbrev pub logged : Text → Trace → Trace
  logged line t =
      if is_neg (sys t (sys_open (codes "./default.log"))).ret
      then after_call (sys_open (codes "./default.log")) t
      else written (sys t (sys_open (codes "./default.log"))).ret line
          (after_call (sys_open (codes "./default.log")) t)

  record_line_lem : (line : Text) (t : Trace) → record_line sys line t ≡ (done tt, logged line t)
  unfolding record_line
  record_line_lem line t =
      elim (Bool-cases (is_neg (sys t (sys_open (codes "./default.log"))).ret)) [
        | inl failed ↦ rw failed refl
        | inr ok ↦ rw ok refl
      ]

  -- For a level that has a name and is not 0, LR_LOG makes the line of the message, its time, file,
  -- line number and level; when the line has less than 10240 bytes it opens ./default.log and, when
  -- the open succeeds, writes the line to the descriptor that it got, once, and closes it; a longer
  -- line overruns the buffer before the file is opened.
  pub lr_log-fits :
      (now file : Text) (line level : ℤ) (name message : Text) (t : Trace)
      → level_name level ≡ some name
      → eq_ℤ level no_log_level ≡ false
      → lr_log sys now file line level message t ≡ (
          if ltb (length (log_line now file line name message)) max_string_len
          then (done tt, logged (log_line now file line name message) t)
          else (fault out_of_bounds, t))
  unfolding lr_log error_core
  lr_log-fits now file line level name message t named real =
      rw (real, named)
        (sprintf_all_lem [] (pieces now file line name message) (record_line sys) t (omega arith)
          ∙ rw (record_line_lem (log_line now file line name message) t) refl)
