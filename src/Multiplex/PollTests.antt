-- ===== src/Multiplex/PollTests.antt =====
-- The servers of IO/poll_server and IO/epoll_server on concrete rounds.
use mathlib.Core.Path.{◌≡◌, refl}
use linux_learning_machine_c.Base.{
  ◌==◌, true, Option, none, some, List, [], ◌∷◌, Bytes, set, replicate,
}
use linux_learning_machine_c.Reactor.Kernel.{Read}
use linux_learning_machine_c.Multiplex.Call.{accepted, asked, closed, added, removed, asks}
use linux_learning_machine_c.Multiplex.Slots.{free_slot}
use linux_learning_machine_c.Multiplex.Poll as Poll
use linux_learning_machine_c.Multiplex.Poll.Readiness.{run_round-asks}
use linux_learning_machine_c.Multiplex.Epoll as Epoll

abbrev shout : Bytes → Option Bytes
shout req = some req

-- A round in which client 7 comes: its `read` would block, as nothing was sent.
abbrev arrival : Poll.Answers
arrival = record { ready = λ fd. fd == 3; reads = λ fd. Read.closed; accepts = some 7 }

abbrev two : Poll.PollServer
two = record {
  sock = 3;
  fds =
      set
        (set (replicate 1024 Poll.resetpollfd) 0
          (record { fd = some 3; events = true; revents = true }))
        1 (Poll.watch 7 Poll.resetpollfd);
  trace = accepted 7 ∷ [];
}

round_runs : Poll.run_round shout (some arrival) (Poll.init 3) ≡ some two
unfolding Poll.run_round Poll.handle_events Poll.handle_from Poll.handle_slot Poll.handle_fd
    Poll.acceptor Poll.recver free_slot
round_runs = refl

run_round-asks_example : asks 7 two.trace ≡ asks 7 (Poll.init 3).trace
run_round-asks_example = run_round-asks shout arrival (Poll.init 3) two 7 round_runs refl

abbrev visits : List Epoll.Waited
visits =
    Epoll.ready (record { fd = 3; readable = true; reads = Read.closed; accepts = some 7 } ∷ [])
    ∷ Epoll.wait_timeout
    ∷ Epoll.ready (record { fd = 7; readable = true; reads = Read.closed; accepts = none } ∷ [])
    ∷ []

abbrev left : Epoll.EpollServer
left = record {
  sock = 3;
  trace = closed 7 ∷ removed 7 ∷ asked 7 ∷ added 7 ∷ accepted 7 ∷ added 3 ∷ [];
}

epoll_runs : Epoll.run shout visits (Epoll.init 3) ≡ some left
unfolding Epoll.run Epoll.handle_events Epoll.handle_event Epoll.acceptor Epoll.recver
epoll_runs = refl
