-- ===== src/Multiplex/Select.antt =====
-- IO/select_server/select_server.hpp: `select_server`, over what the kernel answers. `none` is what
-- C++ leaves undefined, or an exception of the callback.
pub mod Accounts
pub mod Rule
pub mod Listening
pub mod Watch
pub mod Pass
use linux_learning_machine_c.Base.{
  ℕ, zero, suc, ◌+◌, ◌==◌, ltb, Bool, true, false, ◌&&◌, if◌then◌else◌, Option, none, some, ◌>>=◌,
  List, [], ◌∷◌, Bytes, length, set, get_or, replicate,
}
use linux_learning_machine_c.Reactor.Kernel.{Read}
use linux_learning_machine_c.Multiplex.Call.{Call, accepted, asked, answered, closed, line_of}
use linux_learning_machine_c.Multiplex.Slots.{free_slot}

abbrev pub fdscap : ℕ
fdscap = 1024

-- The bits of an `fd_set`: `FD_SETSIZE`.
abbrev pub setsize : ℕ
setsize = 1024

-- `defaultfd` is `none`.
abbrev pub Slots : Type 0
Slots = List (Option ℕ)

-- An entry is its descriptor.
abbrev pub fd_of : Option ℕ → Option ℕ
fd_of a = a

-- The trace holds the newest call first.
pub record SelectServer : Type 0 where
  pub sock : ℕ
  pub rfdarray : Slots
  pub trace : List Call

-- The constructor, and `init` on the listening socket that `sock` opened.
abbrev pub init : ℕ → SelectServer
init sock = record { sock = sock; rfdarray = set (replicate fdscap none) 0 (some sock); trace = [] }

-- `acceptor`, on what `accept` gave.
unfoldable pub acceptor : Option ℕ → SelectServer → SelectServer
acceptor none s = s
acceptor (some fd) s =
    let i = free_slot fd_of s.rfdarray in
    if i == length s.rfdarray
    then record s { trace = closed fd ∷ accepted fd ∷ s.trace }
    else record s { rfdarray = set s.rfdarray i (some fd); trace = accepted fd ∷ s.trace }

-- What the kernel answers in one round: which descriptors `select` reports, what `read` gives on
-- each, and what `accept` gives.
pub record Answers : Type 0 where
  pub ready : ℕ → Bool
  pub reads : ℕ → Read
  pub accepts : Option ℕ

abbrev pub prepend : ℕ → Option (List ℕ) → Option (List ℕ)
prepend fd none = none
prepend fd (some fds) = some (fd ∷ fds)

-- `FD_SET` over the array; it is undefined on a descriptor that is no bit of the set.
unfoldable pub fds_of : Slots → Option (List ℕ)
fds_of [] = some []
fds_of (none ∷ slots) = fds_of slots
fds_of (some fd ∷ slots) = if ltb fd setsize then prepend fd (fds_of slots) else none

-- `maxfd + 1`, from that of the first entry on.
abbrev pub next_of : Option ℕ → ℕ
next_of none = 0
next_of (some fd) = suc fd

unfoldable pub nfds_of : ℕ → Slots → ℕ
nfds_of nfds [] = nfds
nfds_of nfds (none ∷ slots) = nfds_of nfds slots
nfds_of nfds (some fd ∷ slots) = nfds_of (if ltb nfds (suc fd) then suc fd else nfds) slots

abbrev pub is_in : ℕ → List ℕ → Bool
is_in j [] = false
is_in j (fd ∷ fds) = if j == fd then true else is_in j fds

-- `select(nfds, &fds, ...)` leaves in the set those of its descriptors below `nfds` that are ready.
abbrev pub selected : ℕ → List ℕ → (ℕ → Bool) → ℕ → Bool
selected nfds fds ready fd = (ltb fd nfds && is_in fd fds) && ready fd

module _ (callback : Bytes → Option Bytes) where
  -- `close(_rfdarray[pos])`, and the entry is free again.
  abbrev pub drop_client : ℕ → ℕ → SelectServer → SelectServer
  drop_client pos fd s = record s {
    rfdarray = set s.rfdarray pos none;
    trace = closed fd ∷ asked fd ∷ s.trace;
  }

  abbrev pub send : ℕ → Bytes → SelectServer → SelectServer
  send fd resp s = record s { trace = answered fd resp ∷ asked fd ∷ s.trace }

  -- `recver(pos)`, where `_rfdarray[pos]` is `fd`.
  unfoldable pub recver : Read → ℕ → ℕ → SelectServer → Option SelectServer
  recver (Read.read_error e) pos fd s = some (drop_client pos fd s)
  recver Read.closed pos fd s = some (drop_client pos fd s)
  recver (Read.got chunk) pos fd s = callback (line_of chunk) >>= λ resp. some (send fd resp s)

  -- The body of the loop of `handle_readevents`, on an entry that is not `defaultfd`.
  unfoldable pub handle_fd : Answers → ℕ → ℕ → SelectServer → Option SelectServer
  unfolding acceptor recver
  handle_fd a i fd s =
      if a.ready fd && fd == s.sock
      then some (acceptor a.accepts s)
      else if a.ready fd
      then recver (a.reads fd) i fd s
      else some s

  unfoldable pub handle_slot : Answers → ℕ → SelectServer → Option SelectServer
  unfolding handle_fd
  handle_slot a i s = elim (get_or s.rfdarray i none) [
    | none ↦ some s
    | some fd ↦ handle_fd a i fd s
  ]

  -- The loop, from index `i` on for `n` entries.
  unfoldable pub handle_from : Answers → ℕ → ℕ → SelectServer → Option SelectServer
  unfolding handle_slot
  handle_from a zero i s = some s
  handle_from a (suc n) i s = handle_slot a i s >>= λ s'. handle_from a n (suc i) s'

  unfoldable pub handle_readevents : Answers → SelectServer → Option SelectServer
  handle_readevents a s = handle_from a (length s.rfdarray) 0 s

  -- One round of `run`; `none` stands for an error or a timeout of `select`.
  unfoldable pub run_round : Option Answers → SelectServer → Option SelectServer
  unfolding handle_readevents fds_of nfds_of
  run_round none s = fds_of s.rfdarray >>= λ fds. some s
  run_round (some a) s = fds_of s.rfdarray >>= λ fds.
      handle_readevents
        (record a {
          ready = selected (nfds_of (next_of (get_or s.rfdarray 0 none)) s.rfdarray) fds a.ready;
        })
        s

  unfoldable pub run : List (Option Answers) → SelectServer → Option SelectServer
  unfolding run_round
  run [] s = some s
  run (a ∷ rounds) s = run_round a s >>= λ s'. run rounds s'
