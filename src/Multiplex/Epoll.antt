-- ===== src/Multiplex/Epoll.antt =====
-- IO/epoll_server/epoll_server.hpp: `epoll_server`, over what the kernel answers. `none` is an
-- exception of the callback.
pub mod Accounts
use linux_learning_machine_c.Base.{
  ℕ, ◌==◌, Bool, ◌&&◌, if◌then◌else◌, Option, none, some, ◌>>=◌, List, [], ◌∷◌, Bytes,
}
use linux_learning_machine_c.Reactor.Kernel.{Read}
use linux_learning_machine_c.Multiplex.Call.{
  Call, accepted, asked, answered, closed, added, removed, line_of,
}

-- The trace holds the newest call first; what epoll watches is what it adds up to.
pub record EpollServer : Type 0 where
  pub sock : ℕ
  pub trace : List Call

-- A ready descriptor, whether `EPOLLIN` is set, and what `read` or `accept` answers on it.
pub record Event : Type 0 where
  pub fd : ℕ
  pub readable : Bool
  pub reads : Read
  pub accepts : Option ℕ

-- What `epoll_wait` answers.
pub data Waited : Type 0 where
  wait_error wait_timeout : Waited
  ready : List Event → Waited

-- `epoll::time_wait`: `run` handles the events of a positive count.
abbrev pub time_wait : Waited → List Event
time_wait wait_error = []
time_wait wait_timeout = []
time_wait (ready es) = es

-- `epoll::add` and `epoll::del`; the server looks at the answer of neither.
abbrev pub add : ℕ → EpollServer → EpollServer
add fd s = record s { trace = added fd ∷ s.trace }

abbrev pub del : ℕ → EpollServer → EpollServer
del fd s = record s { trace = removed fd ∷ s.trace }

-- `init` on the listening socket that `sock` opened.
abbrev pub init : ℕ → EpollServer
init sock = add sock (record { sock = sock; trace = [] })

-- `acceptor`, on what `accept` gave.
unfoldable pub acceptor : Option ℕ → EpollServer → EpollServer
acceptor none s = s
acceptor (some fd) s = add fd (record s { trace = accepted fd ∷ s.trace })

module _ (callback : Bytes → Option Bytes) where
  -- `epoll::del` and `close`
  abbrev pub drop_client : ℕ → EpollServer → EpollServer
  drop_client fd s =
      let off = del fd (record s { trace = asked fd ∷ s.trace }) in
      record off { trace = closed fd ∷ off.trace }

  abbrev pub send : ℕ → Bytes → EpollServer → EpollServer
  send fd resp s = record s { trace = answered fd resp ∷ asked fd ∷ s.trace }

  -- `recver`
  unfoldable pub recver : Read → ℕ → EpollServer → Option EpollServer
  recver (Read.read_error e) fd s = some (drop_client fd s)
  recver Read.closed fd s = some (drop_client fd s)
  recver (Read.got chunk) fd s = callback (line_of chunk) >>= λ resp. some (send fd resp s)

  -- `handle_events`
  unfoldable pub handle_event : Event → EpollServer → Option EpollServer
  unfolding acceptor recver
  handle_event e s =
      if e.fd == s.sock && e.readable
      then some (acceptor e.accepts s)
      else if e.readable
      then recver e.reads e.fd s
      else some s

  unfoldable pub handle_events : List Event → EpollServer → Option EpollServer
  unfolding handle_event
  handle_events [] s = some s
  handle_events (e ∷ es) s = handle_event e s >>= λ s'. handle_events es s'

  unfoldable pub run : List Waited → EpollServer → Option EpollServer
  unfolding handle_events
  run [] s = some s
  run (w ∷ rounds) s = handle_events (time_wait w) s >>= λ s'. run rounds s'
