-- ===== src/Daemon/System.antt =====
-- The calls to the operating system and the C library that the services and the client make, and
-- what these may answer: a function of the calls so far, the most recent first.
use single_terminal_login_sy.Base.{ℕ, List}
use single_terminal_login_sy.Base.Text.{Text}
use single_terminal_login_sy.Base.Int.{ℤ}
use single_terminal_login_sy.Base.{Bool, true, false}

-- The two event bits that the program uses.
pub record Events : Type 0 where
  pub epollin : Bool
  pub epollout : Bool

abbrev pub in_events : Events
in_events = record { epollin = true; epollout = false }

abbrev pub out_events : Events
out_events = record { epollin = false; epollout = true }

abbrev pub no_events : Events
no_events = record { epollin = false; epollout = false }

-- `epoll_data_t`, a union of which the program writes one of two members.
pub data EpollData : Type 0 where
  data_fd : ℤ → EpollData
  data_ptr : ℕ → EpollData

pub data EpollOp : Type 0 where
  epoll_add epoll_mod epoll_del : EpollOp

pub data Call : Type 0 where
  sys_socket : Call
  sys_bind : ℤ → Text → ℕ → Call
  sys_listen : ℤ → ℕ → Call
  sys_connect : ℤ → Text → ℕ → Call
  sys_accept : ℤ → Call
  sys_close : ℤ → Call
  sys_epoll_create : ℕ → Call
  sys_epoll_ctl : ℤ → EpollOp → ℤ → Events → EpollData → Call
  -- the instance, the length of the array for the events and the time to wait
  sys_epoll_wait : ℤ → ℕ → ℕ → Call
  sys_read : ℤ → ℕ → Call
  sys_write : ℤ → Text → Call
  sys_sleep : ℕ → Call
  sys_usleep : ℕ → Call
  sys_fcntl_get : ℤ → Call
  sys_fcntl_set : ℤ → ℤ → Call
  sys_pthread_create : Call
  -- fgets from the standard input of at most so many bytes, the final NUL included; ret is 0 for NULL
  sys_fgets : ℕ → Call
  -- printf
  sys_print : Text → Call
  -- open(path, O_WRONLY | O_APPEND | O_CREAT, 0666)
  sys_open : Text → Call
  -- signal(n, SIG_IGN)
  sys_ignore : ℕ → Call
  sys_fork : Call
  sys_setsid : Call
  sys_umask : ℕ → Call
  sys_malloc : Call

-- The return value, and the bytes that a read stored.
pub record Reply : Type 0 where
  pub ret : ℤ
  pub bytes : Text

abbrev pub Trace : Type 0
Trace = List (Call × Reply)

abbrev pub Kernel : Type 0
Kernel = Trace → Call → Reply
