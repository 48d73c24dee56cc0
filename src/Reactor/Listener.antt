-- ===== src/Reactor/Listener.antt =====
-- The listening socket of IO/reactor outlives every run.
use mathlib.Core.Path.{subst}
use linux_learning_machine_c.Base.{
  Bool, if-eq, ℕ, ◌≡◌, ◌∙◌, false, ◌==◌, if◌then◌else◌, Option, none, some, List, [], ◌∷◌, Bytes,
  Bool-cases, ==_iff, arith, ◌||◌, inl, inr,
}
use linux_learning_machine_c.Reactor.Connection.{
  Connection, settime, reg, ReadCallback, WriteCallback, new_connection,
}
use linux_learning_machine_c.Reactor.Manager.{getconnptr, getconnptr-newconn}
use linux_learning_machine_c.Reactor.Kernel.{
  eagain, eintr, other, Accept, accepted, accept_error, Event,
}
use linux_learning_machine_c.Reactor.World.{World, ok, >>=-eq-ok, ok-injective}
use linux_learning_machine_c.Reactor.Server.{accept_one, acceptor}
use linux_learning_machine_c.Reactor.Loop.{
  call_reader, call_ready_writer, read_conn, write_conn, dispatch, dispatcher, run_round, run,
}
use linux_learning_machine_c.Reactor.Isolation.{writer-Same, recver-Same}
use linux_learning_machine_c.Reactor.LoopInvariant.{sweep-ok}

-- A connection that accepts clients and is never written to: the listening socket's.
abbrev pub IsListener : Connection → Type 0
IsListener c = (c.on_read ≡ some ReadCallback.acceptor) × (c.on_write ≡ none)

accept_one-keeps :
    (fd : ℕ) (added : Bool) (j : ℕ) (w : World) (c : Connection)
    → getconnptr j w.conns ≡ some c
    → getconnptr j (accept_one fd added w).conns ≡ some c
unfolding accept_one
accept_one-keeps fd added j w c e = ground (
  arith,
  e,
  getconnptr-newconn j fd
      (settime 0 w.clock
        (reg (new_connection fd) (some ReadCallback.recver) (some WriteCallback.writer) none))
      w.conns,
)

acceptor-keeps :
    (answers : List Accept) (j : ℕ) (w : World) (c : Connection)
    → getconnptr j w.conns ≡ some c
    → getconnptr j (acceptor answers w).conns ≡ some c
unfolding acceptor
acceptor-keeps [] j w c e = e
acceptor-keeps (accepted fd added ∷ r) j w c e =
    acceptor-keeps r j (accept_one fd added w) c (accept_one-keeps fd added j w c e)
acceptor-keeps (accept_error eagain ∷ r) j w c e = e
acceptor-keeps (accept_error eintr ∷ r) j w c e = acceptor-keeps r j w c e
acceptor-keeps (accept_error other ∷ r) j w c e = e

-- The entry of the listener.
abbrev Stays : ℕ → Connection → World → Type 0
Stays l c w = getconnptr l w.conns ≡ some c

module _ (callback : Bytes → Bytes → Option (Bytes × Bytes)) (l : ℕ) (c : Connection)
    (is_listener : IsListener c) where
  -- Handling an event of another descriptor, or one of the listener itself.
  read_conn-Stays :
      (e : Event) (w w' : World)
      → read_conn callback e (getconnptr e.fd w.conns) w ≡ ok w'
      → getconnptr l w.conns ≡ some c
      → getconnptr l w'.conns ≡ some c
  unfolding read_conn call_reader
  read_conn-Stays e w w' h s = elim (Bool-cases (e.fd == l)) [
    | inl same ↦ own (getconnptr e.fd w.conns) (rw ((==_iff e.fd l).0 same) s) h
    | inr differs ↦ others (getconnptr e.fd w.conns) differs h
  ]
    where
      own :
          (o : Option Connection)
          → o ≡ some c
          → read_conn callback e o w ≡ ok w'
          → getconnptr l w'.conns ≡ some c
      own o p h =
          let r : ok (acceptor e.accepts w) ≡ ok w' = ground (arith, p, is_listener.0) in
          subst (Stays l c) (ok-injective r) (acceptor-keeps e.accepts l w c s)

      reader :
          (r : Option ReadCallback)
          → (e.fd == l) ≡ false
          → call_reader callback e r w ≡ ok w'
          → getconnptr l w'.conns ≡ some c
      reader none d h = subst (Stays l c) (ok-injective h) s
      reader (some ReadCallback.acceptor) d h =
          subst (Stays l c) (ok-injective h) (acceptor-keeps e.accepts l w c s)
      reader (some ReadCallback.recver) d h = recver-Same e.fd l d callback e.reads w w' h ∙ s

      others :
          (o : Option Connection)
          → (e.fd == l) ≡ false
          → read_conn callback e o w ≡ ok w'
          → getconnptr l w'.conns ≡ some c
      others none d h = subst (Stays l c) (ok-injective h) s
      others (some x) d h = reader x.on_read d h

  write_conn-Stays :
      (fd : ℕ) (w w' : World)
      → write_conn callback fd (getconnptr fd w.conns) w ≡ ok w'
      → getconnptr l w.conns ≡ some c
      → getconnptr l w'.conns ≡ some c
  unfolding write_conn call_ready_writer
  write_conn-Stays fd w w' h s = elim (Bool-cases (fd == l)) [
    | inl same ↦ own (getconnptr fd w.conns) (rw ((==_iff fd l).0 same) s) h
    | inr differs ↦ others (getconnptr fd w.conns) differs h
  ]
    where
      own :
          (o : Option Connection)
          → o ≡ some c
          → write_conn callback fd o w ≡ ok w'
          → getconnptr l w'.conns ≡ some c
      own o p h =
          let r : ok w ≡ ok w' = ground (arith, p, is_listener.1) in
          subst (Stays l c) (ok-injective r) s

      ready :
          (r : Option WriteCallback)
          → (fd == l) ≡ false
          → call_ready_writer callback fd r w ≡ ok w'
          → getconnptr l w'.conns ≡ some c
      ready none d h = subst (Stays l c) (ok-injective h) s
      ready (some WriteCallback.writer) d h = writer-Same fd l d w w' h ∙ s

      others :
          (o : Option Connection)
          → (fd == l) ≡ false
          → write_conn callback fd o w ≡ ok w'
          → getconnptr l w'.conns ≡ some c
      others none d h = subst (Stays l c) (ok-injective h) s
      others (some x) d h = ready x.on_write d h

  dispatch-Stays :
      (e : Event) (w w' : World)
      → dispatch callback e w ≡ ok w'
      → getconnptr l w.conns ≡ some c
      → getconnptr l w'.conns ≡ some c
  unfolding dispatch
  dispatch-Stays e w w' h s =
      let both = e.broken || e.hung_up in
      let w0 = record w { writes = e.writes } in
      let (w1, first, second) =
        >>=-eq-ok
          (if e.readable || both then read_conn callback e (getconnptr e.fd w0.conns) w0 else ok w0)
          _ h in
      let s1 : getconnptr l w1.conns ≡ some c = elim (if-eq (e.readable || both) first) [
        | inl (_, r) ↦ read_conn-Stays e w0 w1 r s
        | inr (_, r) ↦ subst (Stays l c) (ok-injective r) s
      ] in
      elim (if-eq (e.writable || both) second) [
        | inl (_, r) ↦ write_conn-Stays e.fd w1 w' r s1
        | inr (_, r) ↦ subst (Stays l c) (ok-injective r) s1
      ]

  dispatcher-Stays :
      (es : List Event) (w w' : World)
      → dispatcher callback es w ≡ ok w'
      → getconnptr l w.conns ≡ some c
      → getconnptr l w'.conns ≡ some c
  unfolding dispatcher
  dispatcher-Stays [] w w' h s = subst (Stays l c) (ok-injective h) s
  dispatcher-Stays (e ∷ es) w w' h s =
      let (w1, a, k) = >>=-eq-ok (dispatch callback e w) _ h in
      dispatcher-Stays es w1 w' k (dispatch-Stays e w w1 a s)

  -- Whatever the clients, the callback and the kernel do, a run that meets no fault leaves the
  -- connection of the listening socket as it was: it is never closed and goes on accepting.
  pub run-keeps_listener :
      (rounds : List (ℕ × List Event)) (w w' : World)
      → run callback rounds w ≡ ok w'
      → getconnptr l w.conns ≡ some c
      → getconnptr l w'.conns ≡ some c
  unfolding run run_round
  run-keeps_listener [] w w' h s = subst (Stays l c) (ok-injective h) s
  run-keeps_listener ((now, es) ∷ rounds) w w' h s =
      let (w2, a, k) = >>=-eq-ok (run_round callback now es w) _ h in
      let (w1, b, swept) = >>=-eq-ok (dispatcher callback es (record w { clock = now })) _ a in
      let s1 = dispatcher-Stays es (record w { clock = now }) w1 b s in
      run-keeps_listener rounds w2 w' k (subst (Stays l c) (sweep-ok w1.conns w1 w2 swept) s1)
