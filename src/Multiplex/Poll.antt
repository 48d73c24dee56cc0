-- ===== src/Multiplex/Poll.antt =====
-- IO/poll_server/poll_server.hpp: `poll_server`, over what the kernel answers. `none` is an exception
-- of the callback.
pub mod Accounts
pub mod Rule
pub mod Readiness
use linux_learning_machine_c.Base.{
  ℕ, zero, suc, ◌==◌, Bool, true, false, not, ◌&&◌, ◌||◌, if◌then◌else◌, Option, none, some, ◌>>=◌,
  List, [], ◌∷◌, map, Bytes, length, set, get_or, replicate,
}
use linux_learning_machine_c.Reactor.Kernel.{Read}
use linux_learning_machine_c.Multiplex.Call.{Call, accepted, asked, answered, closed, line_of}
use linux_learning_machine_c.Multiplex.Slots.{free_slot}

abbrev pub fdscap : ℕ
fdscap = 1024

-- `struct pollfd`: `defaultfd` is `none`; of `events` and `revents`, the bit `POLLIN`.
pub record Pollfd : Type 0 where
  pub fd : Option ℕ
  pub events : Bool
  pub revents : Bool

abbrev pub fd_of : Pollfd → Option ℕ
fd_of p = p.fd

-- The trace holds the newest call first.
pub record PollServer : Type 0 where
  pub sock : ℕ
  pub fds : List Pollfd
  pub trace : List Call

-- `resetpollfd`
abbrev pub resetpollfd : Pollfd
resetpollfd = record { fd = none; events = false; revents = false }

-- An entry that is set to a descriptor and `POLLIN`; `revents` stays.
abbrev pub watch : ℕ → Pollfd → Pollfd
watch fd p = record p { fd = some fd; events = true }

-- The constructor, and `init` on the listening socket that `sock` opened.
abbrev pub init : ℕ → PollServer
init sock = record {
  sock = sock;
  fds = set (replicate fdscap resetpollfd) 0 (watch sock resetpollfd);
  trace = [];
}

-- `acceptor`, on what `accept` gave.
unfoldable pub acceptor : Option ℕ → PollServer → PollServer
acceptor none s = s
acceptor (some fd) s =
    let i = free_slot fd_of s.fds in
    if i == length s.fds then record s { trace = closed fd ∷ accepted fd ∷ s.trace } else record s {
      fds = set s.fds i (watch fd (get_or s.fds i resetpollfd));
      trace = accepted fd ∷ s.trace;
    }

-- What the kernel answers in one round: which descriptors `poll` reports, what `read` gives on each,
-- and what `accept` gives.
pub record Answers : Type 0 where
  pub ready : ℕ → Bool
  pub reads : ℕ → Read
  pub accepts : Option ℕ

-- `poll` writes `revents` of every entry; it passes over an entry without a descriptor.
abbrev pub reported : (ℕ → Bool) → Option ℕ → Bool
reported ready none = false
reported ready (some fd) = ready fd

abbrev pub poll_entry : (ℕ → Bool) → Pollfd → Pollfd
poll_entry ready p = record p { revents = p.events && reported ready p.fd }

module _ (callback : Bytes → Option Bytes) where
  -- `close(_fds[pos].fd)` and `resetpollfd(_fds[pos])`
  abbrev pub drop_client : ℕ → ℕ → PollServer → PollServer
  drop_client pos fd s = record s {
    fds = set s.fds pos resetpollfd;
    trace = closed fd ∷ asked fd ∷ s.trace;
  }

  abbrev pub send : ℕ → Bytes → PollServer → PollServer
  send fd resp s = record s { trace = answered fd resp ∷ asked fd ∷ s.trace }

  -- `recver(pos)`, where `_fds[pos].fd` is `fd`.
  unfoldable pub recver : Read → ℕ → ℕ → PollServer → Option PollServer
  recver (Read.read_error e) pos fd s = some (drop_client pos fd s)
  recver Read.closed pos fd s = some (drop_client pos fd s)
  recver (Read.got chunk) pos fd s = callback (line_of chunk) >>= λ resp. some (send fd resp s)

  -- The body of the loop of `handle_events`, on an entry that has a descriptor.
  unfoldable pub handle_fd : Answers → ℕ → ℕ → Pollfd → PollServer → Option PollServer
  unfolding acceptor recver
  handle_fd a i fd p s =
      if not p.events
      then some s
      else if fd == s.sock && p.revents
      then some (acceptor a.accepts s)
      else if p.revents
      then recver (a.reads fd) i fd s
      else some s

  unfoldable pub handle_slot : Answers → ℕ → PollServer → Option PollServer
  unfolding handle_fd
  handle_slot a i s = elim (get_or s.fds i resetpollfd).fd [
    | none ↦ some s
    | some fd ↦ handle_fd a i fd (get_or s.fds i resetpollfd) s
  ]

  -- The loop, from index `i` on for `n` entries.
  unfoldable pub handle_from : Answers → ℕ → ℕ → PollServer → Option PollServer
  unfolding handle_slot
  handle_from a zero i s = some s
  handle_from a (suc n) i s = handle_slot a i s >>= λ s'. handle_from a n (suc i) s'

  unfoldable pub handle_events : Answers → PollServer → Option PollServer
  unfolding handle_from
  handle_events a s = handle_from a (length s.fds) 0 s

  -- One round of `run`; `none` stands for an error or a timeout of `poll`.
  unfoldable pub run_round : Option Answers → PollServer → Option PollServer
  unfolding handle_events
  run_round none s = some s
  run_round (some a) s = handle_events a (record s { fds = map (poll_entry a.ready) s.fds })

  unfoldable pub run : List (Option Answers) → PollServer → Option PollServer
  unfolding run_round
  run [] s = some s
  run (a ∷ rounds) s = run_round a s >>= λ s'. run rounds s'
