-- ===== src/Tests/Kernels.antt =====
-- Operating systems to run the daemons on, that answer alike however often they are asked, and the
-- daemons' first states.
use single_terminal_login_sy.Base.{◌≡◌, [], Bool, false, none, some}
use single_terminal_login_sy.Base.Text.{Text, codes}
use single_terminal_login_sy.Base.Int.{ℤ, pos, negsuc}
use single_terminal_login_sy.Exec.{Exec, pure}
use single_terminal_login_sy.Daemon.{Daemon, block}
use single_terminal_login_sy.Daemon.System.{
  sys_socket, sys_bind, sys_listen, sys_connect, sys_accept, sys_close, sys_epoll_create,
  sys_epoll_ctl, sys_read, sys_write, sys_sleep, sys_epoll_wait, sys_usleep, sys_fcntl_get,
  sys_fcntl_set, sys_pthread_create, sys_fgets, sys_print, sys_open, sys_ignore, sys_fork,
  sys_setsid, sys_umask, sys_malloc, Reply, Kernel,
}
use single_terminal_login_sy.Daemon.Epoll.{interest}
use single_terminal_login_sy.Daemon.Heap.{IsWf}

abbrev pub number_reply : ℤ → Reply
number_reply z = record { ret = z; bytes = [] }

-- A write returns `written`, a read `got` with the bytes `text`.
abbrev pub kernel_of : ℤ → ℤ → Text → Kernel
kernel_of written got text t sys_socket = number_reply (pos 4)
kernel_of written got text t (sys_bind fd ip port) = number_reply (pos 0)
kernel_of written got text t (sys_listen fd n) = number_reply (pos 0)
kernel_of written got text t (sys_connect fd ip port) = number_reply (pos 0)
kernel_of written got text t (sys_accept fd) = number_reply (pos 7)
kernel_of written got text t (sys_close fd) = number_reply (pos 0)
kernel_of written got text t (sys_epoll_create n) = number_reply (pos 3)
kernel_of written got text t (sys_epoll_ctl e op fd ev d) = number_reply (pos 0)
kernel_of written got text t (sys_read fd n) = record { ret = got; bytes = text }
kernel_of written got text t (sys_write fd s) = number_reply written
kernel_of written got text t (sys_epoll_wait e n time) = number_reply (pos 1)
kernel_of written got text t (sys_sleep n) = number_reply (pos 0)
kernel_of written got text t (sys_usleep n) = number_reply (pos 0)
kernel_of written got text t (sys_fcntl_get fd) = number_reply (pos 2)
kernel_of written got text t (sys_fcntl_set fd n) = number_reply (pos 0)
kernel_of written got text t sys_pthread_create = number_reply (pos 0)
kernel_of written got text t (sys_fgets n) = record { ret = got; bytes = text }
kernel_of written got text t (sys_print s) = number_reply (pos 1)
kernel_of written got text t (sys_open path) = number_reply (pos 5)
kernel_of written got text t (sys_ignore n) = number_reply (pos 0)
kernel_of written got text t sys_fork = number_reply (pos 0)
kernel_of written got text t sys_setsid = number_reply (pos 1)
kernel_of written got text t (sys_umask n) = number_reply (pos 0)
kernel_of written got text t sys_malloc = number_reply (pos 1)

abbrev pub working : Kernel
working = kernel_of (pos 2) (pos 2) (codes "hi")

-- Every write fails.
abbrev pub deaf : Kernel
deaf = kernel_of (negsuc 0) (pos 2) (codes "hi")

-- A daemon that has made no call.
abbrev pub fresh : {X : Type 0} → X → Daemon X
fresh x = record { client_num = 0; fd_name = []; heap = []; next = 0; trace = []; own = x }

-- A handler that fails at once.
abbrev pub failing : {X : Type 0} → ℤ → ℤ → Text → Exec (Daemon X) Bool
failing fd code msg = pure false

pub fresh-IsWf : {X : Type 0} (x : X) (epoll_fd : ℤ) → IsWf epoll_fd (fresh x)
unfolding interest block
fresh-IsWf x epoll_fd = record {
  held = λ fd p ev e. elim (nothing e) [ ];
  below = λ p b e. elim (no_block e) [ ];
}
  where
    nothing : {A : Type 0} {x : A} → none ≡ some x → ⊥
    nothing e = cc

    no_block : {A : Type 0} {x : A} → none ≡ some x → ⊥
    no_block e = cc
