-- ===== src/Reactor/Kernel.antt =====
-- What the server of IO/reactor asks of the kernel, and what it is answered.
use linux_learning_machine_c.Base.{ℕ, Bytes, Bool, List}

-- `errno`, as far as the handlers tell it apart.
pub data Errno : Type 0 where
  eagain eintr other : Errno

-- What `read`, `write` and `accept` answer. A `write` takes so many bytes, as far as there are. With a
-- new descriptor comes whether `epoll_ctl` then adds it.
pub data Read : Type 0 where
  got : Bytes → Read
  closed : Read
  read_error : Errno → Read

pub data Write : Type 0 where
  took : ℕ → Write
  write_error : Errno → Write

pub data Accept : Type 0 where
  accepted : ℕ → Bool → Accept
  accept_error : Errno → Accept

-- `EPOLLIN`, with `EPOLLOUT` if the flag is set; always edge-triggered.
pub data Interest : Type 0 where
  reads_only reads_and_writes : Interest

-- The system calls that the server makes; `epoll_add` is one that succeeded.
pub data Call : Type 0 where
  set_nonblock : ℕ → Call
  epoll_add : ℕ → Interest → Call
  epoll_mod : ℕ → Interest → Call
  epoll_del : ℕ → Call
  close : ℕ → Call
  wrote : ℕ → Bytes → Call

-- A ready descriptor, as `epoll_wait` reports it, with what the kernel answers to the calls that the
-- server makes while it handles it. A list of answers that ends goes on with `EAGAIN`.
pub record Event : Type 0 where
  pub fd : ℕ
  pub readable : Bool
  pub writable : Bool
  pub broken : Bool
  pub hung_up : Bool
  pub reads : List Read
  pub writes : List Write
  pub accepts : List Accept
