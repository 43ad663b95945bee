-- ===== src/Daemon.antt =====
-- mylib/mylib_daemon/daemon.cpp and daemon.h: class DaemonBase, and the body of the event loop that
-- service/messageReceiver/main.cpp, service/messageDispatcher/main.cpp and
-- service/loginManager/main/main.cpp share.
--
-- The members of a derived class are the field `own`. An address is a number that malloc has not
-- given before.
pub mod System
pub mod Loop
pub mod Own
pub mod Init
pub mod Epoll
pub mod Heap
pub mod Read
pub mod Write
pub mod Quiet
pub mod Reach
use single_terminal_login_sy.Base.{
  ℕ, suc, ◌+◌, ◌^◌, Bool, true, false, not, ◌&&◌, Option, none, some, List, [], ◌∷◌, ◌++◌, ltb,
  ◌==◌, if◌then◌else◌,
}
use single_terminal_login_sy.Base.Text.{Text, codes, c_str}
use single_terminal_login_sy.Base.Int.{ℤ, pos, negsuc, is_neg, eq_ℤ, to_int}
use single_terminal_login_sy.Base.Decimal.{show_ℕ}
use single_terminal_login_sy.Codes.{code_value, success, system_error}
use single_terminal_login_sy.Exec.{
  Exec, pure, crash, ◌>>=◌, ◌>>◌, null_pointer, out_of_bounds, use_after_free, wild_pointer,
  signed_overflow,
}
use System.*

abbrev pub max_message_len : ℕ
max_message_len = 10240

-- eventDataBuf_t; `message` holds the bytes stored, the rest of the array being zero.
pub record EventDataBuf : Type 0 where
  pub fd : ℤ
  pub code : ℤ
  pub message : Text

pub record Daemon (X : Type 0) : Type 0 where
  pub client_num : ℕ
  pub fd_name : List (ℤ × Text)
  pub heap : List (ℕ × EventDataBuf)
  pub next : ℕ
  pub trace : Trace
  pub own : X

-- DaemonBase::DaemonBase, in a process that has made no call.
abbrev pub new_daemon : {X : Type 0} → X → Daemon X
new_daemon own = record { client_num = 0; fd_name = []; heap = []; next = 0; trace = []; own = own }

-- std::map::find
unfoldable pub find_key : {V : Type 0} → List (ℤ × V) → ℤ → Option V
find_key [] fd = none
find_key ((k, v) ∷ m) fd = let rest = find_key m fd in if eq_ℤ fd k then some v else rest

-- std::map::insert, which leaves the value of a key that is there.
unfoldable pub insert_key : {V : Type 0} → List (ℤ × V) → ℤ → V → List (ℤ × V)
insert_key m fd name = elim (find_key m fd) [ none ↦ (fd, name) ∷ m | some _ ↦ m ]

abbrev pub name_or_empty : Option Text → Text
name_or_empty none = []
name_or_empty (some v) = v

-- The block at an address, if it is allocated.
unfoldable pub block : List (ℕ × EventDataBuf) → ℕ → Option EventDataBuf
block [] p = none
block ((q, b) ∷ h) p = let rest = block h p in if p == q then some b else rest

unfoldable pub release : List (ℕ × EventDataBuf) → ℕ → List (ℕ × EventDataBuf)
release [] p = []
release ((q, b) ∷ h) p = let rest = release h p in if p == q then rest else (q, b) ∷ rest

-- `data.fd`, the low 32 bits of an address when the union holds one
abbrev pub fd_of : EpollData → ℤ
fd_of (data_fd fd) = fd
fd_of (data_ptr p) = to_int p

abbrev pub empty_buf : ℤ → EventDataBuf
empty_buf fd = record { fd = fd; code = pos 0; message = [] }

-- What the handler gets for n bytes read.
abbrev pub message_of : ℤ → Text → EventDataBuf
message_of fd bytes = record { fd = fd; code = code_value success; message = bytes }

module _ {X : Type 0} where
  unfoldable pub get_fd_name : ℤ → Daemon X → Text
  get_fd_name fd s = name_or_empty (find_key s.fd_name fd)

  abbrev pub free : ℕ → Exec (Daemon X) (Unit {0})
  free p s = pure tt (record s { heap = release s.heap p })

  abbrev pub loaded : ℕ → Option EventDataBuf → Exec (Daemon X) (ℕ × EventDataBuf)
  loaded p none = crash use_after_free
  loaded p (some b) = pure (p, b)

  -- `*(eventDataBuf_t*)data.ptr`
  abbrev pub load : EpollData → Exec (Daemon X) (ℕ × EventDataBuf)
  load (data_fd fd) s = crash wild_pointer s
  load (data_ptr p) s = loaded p (block s.heap p) s

  abbrev pub name_fd : ℤ → Text → Exec (Daemon X) (Unit {0})
  name_fd fd name s = pure tt (record s { fd_name = insert_key s.fd_name fd name })

  -- `++_clientNum`
  abbrev pub count_client : Exec (Daemon X) ℕ
  count_client s =
      if ltb (suc s.client_num) (2 ^ 31)
      then pure (suc s.client_num) (record s { client_num = suc s.client_num })
      else crash signed_overflow s

  module _ (sys : Kernel) where
    abbrev pub called : Call → Daemon X → Daemon X
    called c s = record s { trace = (c, sys s.trace c) ∷ s.trace }

    abbrev pub call : Call → Exec (Daemon X) Reply
    call c s = pure (sys s.trace c) (called c s)

    -- malloc, and the store to the block that follows at once
    abbrev pub allocate : EventDataBuf → Exec (Daemon X) ℕ
    allocate b = do
      r ← call sys_malloc
      if eq_ℤ r.ret (pos 0) then crash null_pointer else λ s.
          pure s.next (record s { heap = (s.next, b) ∷ s.heap; next = suc s.next })

    abbrev pub store : ℕ → EventDataBuf → Exec (Daemon X) (Unit {0})
    store p b s = pure tt (record s { heap = (p, b) ∷ release s.heap p })

    -- A write, and whether it did not fail.
    abbrev pub send : ℤ → Text → Exec (Daemon X) Bool
    send fd text = do r ← call (sys_write fd text); pure (not (is_neg r.ret))

    -- none is a return of -1
    unfoldable pub create_listen_sock : Text → ℕ → Exec (Daemon X) (Option ℤ)
    create_listen_sock ip port = do
      sock ← call sys_socket
      if is_neg sock.ret then pure none else (do
        bound ← call (sys_bind sock.ret ip port)
        if is_neg bound.ret then pure none else (do
          listening ← call (sys_listen sock.ret 64)
          if is_neg listening.ret then pure none else pure (some sock.ret)))

    unfoldable pub connect_to_service : Text → ℕ → Exec (Daemon X) (Option ℤ)
    connect_to_service ip port = do
      sock ← call sys_socket
      if is_neg sock.ret then pure none else (do
        connected ← call (sys_connect sock.ret ip port)
        if is_neg connected.ret
            then (do _ ← call (sys_close sock.ret); pure none)
            else pure (some sock.ret))

    unfoldable pub create_epoll_fd : Exec (Daemon X) (Option ℤ)
    create_epoll_fd = do
      made ← call (sys_epoll_create 256)
      if is_neg made.ret then pure none else pure (some made.ret)

    -- true is a return of 0, false of -1
    unfoldable pub epoll_ctl : ℤ → EpollOp → ℤ → Events → Exec (Daemon X) Bool
    epoll_ctl epoll_fd op fd events = do
      r ← call (sys_epoll_ctl epoll_fd op fd events (data_fd fd))
      pure (not (is_neg r.ret))

    unfoldable pub deal_connect_request : ℤ → ℤ → Exec (Daemon X) Bool
    deal_connect_request listen_socket epoll_fd = do
      linked ← call (sys_accept listen_socket)
      if is_neg linked.ret then pure false else (do
        added ← epoll_ctl epoll_fd epoll_add linked.ret in_events
        if added
            then (do n ← count_client; name_fd linked.ret (codes "CLIENT " ++ show_ℕ n); pure true)
            else pure false)

    -- The three ways of dealReadEvent after its read.
    abbrev pub read_failed : ℤ → ℕ → Exec (Daemon X) Bool
    read_failed fd p = do
      store p (record {
        fd = fd;
        code = code_value system_error;
        message = codes "SYSTEM_ERROR: read system call failed!";
      })
      pure false

    abbrev pub peer_closed : ℤ → ℤ → ℕ → Exec (Daemon X) Bool
    peer_closed fd epoll_fd p = do
      _ ← epoll_ctl epoll_fd epoll_del fd no_events
      _ ← call (sys_close fd)
      free p
      pure true

    -- `message[ret] = '\0'` needs ret below the length of the array.
    abbrev pub received : ℤ → ℤ → ℕ → ℕ → Text → Exec (Daemon X) Bool
    received fd epoll_fd p n bytes =
        if ltb n max_message_len
        then (do
          store p (message_of fd bytes)
          _ ← call (sys_epoll_ctl epoll_fd epoll_mod fd out_events (data_ptr p))
          pure true)
        else crash out_of_bounds

    abbrev pub after_read : ℤ → ℤ → ℕ → Reply → ℤ → Exec (Daemon X) Bool
    after_read fd epoll_fd p r (negsuc n) = read_failed fd p
    after_read fd epoll_fd p r (pos n) =
        if n == 0 then peer_closed fd epoll_fd p else received fd epoll_fd p n r.bytes

    unfoldable pub deal_read_event : ℤ → ℤ → Exec (Daemon X) Bool
    deal_read_event fd epoll_fd = do
      p ← allocate (empty_buf fd)
      r ← call (sys_read fd max_message_len)
      after_read fd epoll_fd p r r.ret

    abbrev pub after_message : ℤ → ℤ → ℕ → Bool → Exec (Daemon X) Bool
    after_message fd epoll_fd p false = do free p; pure false
    after_message fd epoll_fd p true = do free p; epoll_ctl epoll_fd epoll_mod fd in_events

    module _ (deal_client_message : ℤ → ℤ → Text → Exec (Daemon X) Bool) where
      abbrev pub write_loaded : ℤ → ℕ × EventDataBuf → Exec (Daemon X) Bool
      write_loaded epoll_fd (p, b) = do
        ran ← deal_client_message b.fd b.code (c_str b.message)
        after_message b.fd epoll_fd p ran

      unfoldable pub deal_write_event : ℤ → EpollData → Exec (Daemon X) Bool
      deal_write_event epoll_fd ready = do found ← load ready; write_loaded epoll_fd found
