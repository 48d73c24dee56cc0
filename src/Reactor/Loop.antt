-- ===== src/Reactor/Loop.antt =====
-- IO/reactor/reactor_server.hpp: `dispatcher` and `run`, which call the handlers.
use linux_learning_machine_c.Base.{ℕ, ◌||◌, if◌then◌else◌, Option, none, some, List, [], ◌∷◌, Bytes}
use linux_learning_machine_c.Reactor.Connection.{ReadCallback, WriteCallback, Connection}
use linux_learning_machine_c.Reactor.Manager.{Conns, getconnptr, is_timeout}
use linux_learning_machine_c.Reactor.Kernel.{Event}
use linux_learning_machine_c.Reactor.World.{World, bad_iterator, Outcome, ok, fault, ◌>>=◌}
use linux_learning_machine_c.Reactor.Server.{closefd, writer, acceptor, recver}

-- `_callback`: the new input and output buffers, or an exception.
module _ (callback : Bytes → Bytes → Option (Bytes × Bytes)) where
  -- `_conns[fd]->_recver(_conns[fd])`, if it is set.
  unfoldable pub call_reader : Event → Option ReadCallback → World → Outcome World
  call_reader e none w = ok w
  call_reader e (some ReadCallback.acceptor) w = ok (acceptor e.accepts w)
  call_reader e (some ReadCallback.recver) w = recver callback e.reads e.fd w

  -- The same for `_writer`, which `dispatcher` tests before it calls it.
  unfoldable pub call_ready_writer : ℕ → Option WriteCallback → World → Outcome World
  call_ready_writer fd none w = ok w
  call_ready_writer fd (some WriteCallback.writer) w = writer fd w

  -- Both look the descriptor up first, by `is_alive`.
  unfoldable pub read_conn : Event → Option Connection → World → Outcome World
  unfolding call_reader
  read_conn e none w = ok w
  read_conn e (some c) w = call_reader e c.on_read w

  unfoldable pub write_conn : ℕ → Option Connection → World → Outcome World
  unfolding call_ready_writer
  write_conn fd none w = ok w
  write_conn fd (some c) w = call_ready_writer fd c.on_write w

  -- One round of `dispatcher`: an error or a hang-up counts as both events.
  unfoldable pub dispatch : Event → World → Outcome World
  dispatch e w =
      let both = e.broken || e.hung_up in
      let w0 = record w { writes = e.writes } in
      (if e.readable || both then read_conn e (getconnptr e.fd w0.conns) w0 else ok w0) >>= λ w1.
      if e.writable || both then write_conn e.fd (getconnptr e.fd w1.conns) w1 else ok w1

  -- `dispatcher`
  unfoldable pub dispatcher : List Event → World → Outcome World
  dispatcher [] w = ok w
  dispatcher (e ∷ es) w = dispatch e w >>= λ w'. dispatcher es w'

-- The limit of `run`, in seconds.
abbrev pub keepalive : ℕ
keepalive = 300

-- The sweep of `run` over `_conns`: `closefd` erases the entry that the loop's iterator stands at, so
-- the step to the next entry is undefined.
unfoldable pub sweep : Conns → World → Outcome World
sweep [] w = ok w
sweep ((s, c) ∷ cs) w =
    let next = sweep cs w in
    let after = closefd c.sock w in
    if is_timeout w.clock keepalive c then fault bad_iterator else next

-- One round of `run`: the time, and the ready events that `epoll_wait` reports (none on a timeout or
-- an error).
unfoldable pub run_round :
    (Bytes → Bytes → Option (Bytes × Bytes)) → ℕ → List Event → World → Outcome World
run_round callback now es w =
    dispatcher callback es (record w { clock = now }) >>= λ w'. sweep w'.conns w'

unfoldable pub run :
    (Bytes → Bytes → Option (Bytes × Bytes)) → List (ℕ × List Event) → World → Outcome World
run callback [] w = ok w
run callback ((now, es) ∷ rounds) w = run_round callback now es w >>= λ w'. run callback rounds w'
