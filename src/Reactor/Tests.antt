-- ===== src/Reactor/Tests.antt =====
-- Runs of the server of IO/reactor, and its theorems at concrete states.
use linux_learning_machine_c.Base.{
  ℕ, All, ◌⊎◌, ◌≡◌, refl, true, false, Option, none, some, List, [], ◌∷◌, ◌++◌, Bytes, codes, find,
  arith,
}
use linux_learning_machine_c.Base.Int.{◌+ℤ◌}
use linux_learning_machine_c.Cal.{calculator}
use linux_learning_machine_c.Protocol.Frame.{end_mark, decode, encode, recvmessage}
use linux_learning_machine_c.Protocol.Decimal.{to_string, stoi, digits}
use linux_learning_machine_c.Protocol.Message.Text.{read_request, write_response, text_codec}
use linux_learning_machine_c.Service.Calculator.{answer, serve, cal_io, cal_callback}
use linux_learning_machine_c.Reactor.Connection.{
  Connection, ReadCallback, WriteCallback, new_connection, reg,
}
use linux_learning_machine_c.Reactor.Manager.{
  getconnptr, is_alive, newconn, deleconn, modify, is_timeout,
}
use linux_learning_machine_c.Reactor.Kernel.{
  got, Write, took, accepted, reads_only, epoll_add, Event,
}
use linux_learning_machine_c.Reactor.World.{World, Outcome, ok, fault, use_after_free, bad_iterator}
use linux_learning_machine_c.Reactor.Trace.{armed, sent_to}
use linux_learning_machine_c.Reactor.Server.{
  closefd, err_io, writer_end, writer_loop, writer, call_writer, acceptor, accept_one, recver_chunk,
  recver_loop, recver,
}
use linux_learning_machine_c.Reactor.Loop.{
  dispatcher, dispatch, read_conn, write_conn, call_reader, call_ready_writer, sweep, run_round,
  run,
}
use linux_learning_machine_c.Reactor.Invariant.{Inv}
use linux_learning_machine_c.Reactor.LoopInvariant.{run-Inv}
use linux_learning_machine_c.Reactor.Sweep.{HasTime, AnyExpired, sweep-AnyExpired}
use linux_learning_machine_c.Reactor.Delivery.{Delivers, writer-Delivers}
use linux_learning_machine_c.Reactor.Listener.{run-keeps_listener}
use linux_learning_machine_c.Reactor.Faults.{incomplete_message_faults}
use linux_learning_machine_c.Reactor.Setup.{listener}
use linux_learning_machine_c.Reactor.EndToEnd.{IsWaiting, Answered, recver_answers}

abbrev client : ℕ → Bytes → Connection
client fd out =
    record (reg (new_connection fd) (some ReadCallback.recver) (some WriteCallback.writer) none) {
      outbuf = out;
    }

-- The listening socket 3 and the clients 4 and 5; `out` waits to be sent to 4.
abbrev two_clients : Bytes → List Write → World
two_clients out ws = record {
  conns = (5, client 5 []) ∷ (4, client 4 out) ∷ (3, listener 3) ∷ [];
  clock = 100;
  writes = ws;
  trace = epoll_add 5 reads_only ∷ epoll_add 4 reads_only ∷ epoll_add 3 reads_only ∷ [];
}

two_clients-Inv : (out : Bytes) (ws : List Write) → Inv (two_clients out ws)
unfolding armed getconnptr
two_clients-Inv out ws = record { tracked = λ j. ground arith; sound = tt }

abbrev question : Bytes
question = codes "3 4 +" ++ end_mark

abbrev reply : Bytes
reply = codes "7 0" ++ end_mark

abbrev callback : Bytes → Bytes → Option (Bytes × Bytes)
callback = cal_callback text_codec

-- What a run of the server goes through.
runs_through : Outcome World
unfolding run run_round dispatcher dispatch read_conn write_conn call_reader call_ready_writer sweep
    recver recver_loop recver_chunk call_writer writer writer_loop writer_end closefd err_io
    acceptor accept_one getconnptr newconn deleconn modify is_timeout listener cal_callback cal_io
    serve answer recvmessage decode encode find read_request write_response to_string digits stoi
    calculator ◌+ℤ◌
runs_through = run callback [] (two_clients [] [])

abbrev asks : Event
asks = record {
  fd = 4;
  readable = true;
  writable = false;
  broken = false;
  hung_up = false;
  reads = got question ∷ [];
  writes = took 100 ∷ [];
  accepts = [];
}

abbrev joins : Event
joins = record asks { fd = 3; reads = []; writes = []; accepts = accepted 6 true ∷ [] }

abbrev rounds : List (ℕ × List Event)
rounds = (100, asks ∷ joins ∷ []) ∷ []

abbrev result : Outcome World → World
result (ok w) = w
result (fault e) = two_clients [] []

-- One round in which client 4 asks and a new client 6 joins.
abbrev start : World
start = two_clients [] []

abbrev after_rounds : World
after_rounds = result (run callback rounds start)

rounds-run : run callback rounds start ≡ ok after_rounds
unfolding runs_through
rounds-run = refl

reply_sent : (sent_to 4 after_rounds.trace ≡ reply) × (is_alive 6 after_rounds.conns ≡ true)
unfolding runs_through sent_to
reply_sent = (refl, refl)

run-Inv_example : Inv after_rounds
run-Inv_example =
    run-Inv callback rounds start after_rounds rounds-run ((tt, ((refl, tt), tt)), tt)
      (two_clients-Inv [] [])

run-keeps_listener_example : getconnptr 3 after_rounds.conns ≡ some (listener 3)
unfolding getconnptr listener
run-keeps_listener_example =
    run-keeps_listener callback 3 (listener 3) (refl, refl) rounds start after_rounds rounds-run
      refl

-- A client whose reply goes out in two writes.
abbrev halfway : World
halfway = two_clients reply (took 2 ∷ took 2 ∷ [])

writer-Delivers_example : Delivers 4 halfway (result (writer 4 halfway))
unfolding runs_through
writer-Delivers_example = writer-Delivers 4 halfway (result (writer 4 halfway)) refl

abbrev asking : World
asking = two_clients [] (took 100 ∷ [])

incomplete_message_faults_example :
    recver_loop callback (got (codes "3 4") ∷ []) 4 asking ≡ fault use_after_free
unfolding getconnptr recvmessage find
incomplete_message_faults_example =
    incomplete_message_faults text_codec (codes "3 4") [] 4 100 [] asking (client 4 []) refl refl
      refl (omega arith) refl refl

start-HasTime : All HasTime start.conns
unfolding listener
start-HasTime = (omega arith, (omega arith, (omega arith, tt)))

sweep-AnyExpired_example :
    let w = record start { clock = 1000 } in
    (AnyExpired w.clock w.conns × (sweep w.conns w ≡ fault bad_iterator))
    ⊎ (¬ AnyExpired w.clock w.conns × (sweep w.conns w ≡ ok w))
sweep-AnyExpired_example =
    sweep-AnyExpired start.conns (record start { clock = 1000 }) (omega arith) start-HasTime

client-IsWaiting : IsWaiting 4 [] (took 100 ∷ []) asking (client 4 [])
unfolding getconnptr recvmessage find
client-IsWaiting = record {
  stands = refl;
  can_write = refl;
  inbuf_is = refl;
  outbuf_is = refl;
  writes_are = refl;
  idle = refl;
}

question_answered :
    cal_io text_codec question [] ≡ linux_learning_machine_c.Service.Calculator.served [] reply
unfolding runs_through
question_answered = refl

recver_answers_example : Answered text_codec 4 [] (question ∷ []) asking
recver_answers_example =
    recver_answers text_codec (question ∷ []) (took 100 ∷ []) [] 4 asking (client 4 [])
      client-IsWaiting
      (omega arith, omega arith, ([], reply, question_answered, omega arith, omega arith, refl))
