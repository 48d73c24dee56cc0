-- ===== src/Multiplex/Tests.antt =====
-- The servers of IO/select_server, IO/poll_server and IO/epoll_server on concrete rounds.
use mathlib.Core.Path.{◌≡◌, refl}
use linux_learning_machine_c.Base.{
  ◌==◌, Option, none, some, ◌>>=◌, [], ◌∷◌, Bytes, codes, set, replicate,
}
use linux_learning_machine_c.Reactor.Kernel.{Read}
use linux_learning_machine_c.Multiplex.Call.{accepted, asked, answered}
use linux_learning_machine_c.Multiplex.Slots.{uses, free_slot}
use linux_learning_machine_c.Multiplex.Select as Select
use linux_learning_machine_c.Multiplex.Select.Accounts.{IsAccounted, run-IsAccounted}
use linux_learning_machine_c.Multiplex.Select.Listening.{run-listens}
use linux_learning_machine_c.Multiplex.Select.Pass.{
  with_slots, serve_all, handle_readevents-serve_all,
}

abbrev echo : Bytes → Option Bytes
echo req = some req

-- A first round in which client 7 comes, and a second one in which it sends a line.
abbrev arrival : Select.Answers
arrival = record { ready = λ fd. fd == 3; reads = λ fd. Read.closed; accepts = some 7 }

abbrev request : Select.Answers
request = record { ready = λ fd. fd == 7; reads = λ fd. Read.got (codes "hi\n"); accepts = none }

abbrev served : Select.SelectServer
served = record {
  sock = 3;
  rfdarray = set (set (replicate 1024 none) 0 (some 3)) 1 (some 7);
  trace = answered 7 (codes "hi") ∷ asked 7 ∷ accepted 7 ∷ [];
}

select_runs : Select.run echo (some arrival ∷ some request ∷ []) (Select.init 3) ≡ some served
unfolding Select.run Select.run_round Select.handle_readevents Select.handle_from Select.handle_slot
    Select.handle_fd Select.acceptor Select.recver Select.fds_of Select.nfds_of free_slot
select_runs = refl

run-IsAccounted_example : IsAccounted served
run-IsAccounted_example =
    run-IsAccounted echo 3 (some arrival ∷ some request ∷ []) served select_runs

run-listens_example : uses Select.fd_of 3 served.rfdarray ≡ 1
run-listens_example =
    run-listens echo 3 (some arrival ∷ some request ∷ []) served (λ e. cc, (λ e. cc, tt))
      select_runs

handle_readevents-serve_all_example : Select.handle_readevents echo request served ≡ (
    serve_all echo request served.rfdarray served.trace >>= λ (ys, t).
    some (with_slots echo served ys t))
handle_readevents-serve_all_example = handle_readevents-serve_all echo request served refl
