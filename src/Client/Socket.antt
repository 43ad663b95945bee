-- ===== src/Client/Socket.antt =====
-- The state of the client's process, and the calls that it makes.
use Prim.Native.Nat.{bit_or}
use single_terminal_login_sy.Base.{Option, none, some, ◌∷◌, ◌++◌, if◌then◌else◌}
use single_terminal_login_sy.Base.Text.{Text, codes}
use single_terminal_login_sy.Base.Int.{ℤ, pos, negsuc, is_neg}
use single_terminal_login_sy.Exec.{Exec, pure, ◌>>=◌}
use single_terminal_login_sy.Daemon.System.{
  Call, Reply, Trace, Kernel, sys_socket, sys_connect, sys_close, sys_fcntl_get, sys_fcntl_set,
  sys_print,
}

-- The global clientSocket, and the calls so far.
pub record Client : Type 0 where
  pub client_socket : ℤ
  pub trace : Trace

abbrev pub socket : Exec Client ℤ
socket s = pure s.client_socket s

abbrev pub set_socket : ℤ → Exec Client (Unit {0})
set_socket fd s = pure tt (record s { client_socket = fd })

-- oldOption | O_NONBLOCK; -1 has every bit.
abbrev pub with_nonblock : ℤ → ℤ
with_nonblock (pos n) = pos (bit_or n 2048)
with_nonblock (negsuc n) = negsuc n

module _ (sys : Kernel) where
  abbrev pub called : Call → Client → Client
  called c s = record s { trace = (c, sys s.trace c) ∷ s.trace }

  abbrev pub call : Call → Exec Client Reply
  call c s = pure (sys s.trace c) (called c s)

  -- printf("%s\n", text)
  abbrev pub print : Text → Exec Client (Unit {0})
  print text = do _ ← call (sys_print (text ++ codes "\n")); pure tt

  -- none is a return of -1
  unfoldable pub get_tcp_socket : Exec Client (Option ℤ)
  get_tcp_socket = do
    skfd ← call sys_socket
    if is_neg skfd.ret then pure none else (do
      connected ← call (sys_connect skfd.ret (codes "127.0.0.1") 8080)
      if is_neg connected.ret
          then (do _ ← call (sys_close skfd.ret); pure none)
          else pure (some skfd.ret))

  unfoldable pub set_non_blocking : ℤ → Exec Client ℤ
  set_non_blocking fd = do
    old ← call (sys_fcntl_get fd)
    _ ← call (sys_fcntl_set fd (with_nonblock old.ret))
    pure old.ret
