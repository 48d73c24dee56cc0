-- ===== src/Reactor/LoopInvariant.antt =====
-- The event loop of IO/reactor keeps the invariant, and what its sweep does.
use mathlib.Core.Path.{subst}
use linux_learning_machine_c.Base.{
  if-eq, All, ℕ, ◌≡◌, if◌then◌else◌, Option, none, some, List, [], ◌∷◌, Bytes, arith, ◌||◌, inl,
  inr,
}
use linux_learning_machine_c.Reactor.Connection.{Connection, ReadCallback, WriteCallback}
use linux_learning_machine_c.Reactor.Manager.{Conns, getconnptr}
use linux_learning_machine_c.Reactor.Kernel.{Event}
use linux_learning_machine_c.Reactor.World.{World, ok, >>=-eq-ok, ok-injective}
use linux_learning_machine_c.Reactor.Invariant.{
  Inv, IsAdded, writer-Inv, acceptor-Inv, recver-Inv, with_writes,
}
use linux_learning_machine_c.Reactor.Loop.{
  call_reader, call_ready_writer, read_conn, write_conn, dispatch, dispatcher, sweep, run_round,
  run,
}

-- In all of these events `epoll_ctl` adds the new descriptors.
abbrev pub EachAdded : Event → Type 0
EachAdded e = All IsAdded e.accepts

abbrev pub RoundAdds : ℕ × List Event → Type 0
RoundAdds (now, es) = All EachAdded es

module _ (callback : Bytes → Bytes → Option (Bytes × Bytes)) where
  read_conn-Inv :
      (e : Event) (o : Option Connection) (w w' : World)
      → read_conn callback e o w ≡ ok w'
      → All IsAdded e.accepts
      → Inv w
      → Inv w'
  unfolding read_conn
  read_conn-Inv e none w w' h a v = subst Inv (ok-injective h) v
  read_conn-Inv e (some c) w w' h a v = reader c.on_read h
    where
      reader : (r : Option ReadCallback) → call_reader callback e r w ≡ ok w' → Inv w'
      reader none h = subst Inv (ok-injective h) v
      reader (some ReadCallback.acceptor) h =
          subst Inv (ok-injective h) (acceptor-Inv e.accepts w a v)
      reader (some ReadCallback.recver) h = recver-Inv callback e.reads e.fd w w' h v

  write_conn-Inv :
      (fd : ℕ) (o : Option Connection) (w w' : World)
      → write_conn callback fd o w ≡ ok w'
      → Inv w
      → Inv w'
  unfolding write_conn
  write_conn-Inv fd none w w' h v = subst Inv (ok-injective h) v
  write_conn-Inv fd (some c) w w' h v = ready c.on_write h
    where
      ready : (r : Option WriteCallback) → call_ready_writer callback fd r w ≡ ok w' → Inv w'
      ready none h = subst Inv (ok-injective h) v
      ready (some WriteCallback.writer) h = writer-Inv fd w w' h v

  dispatch-Inv :
      (e : Event) (w w' : World)
      → dispatch callback e w ≡ ok w'
      → All IsAdded e.accepts
      → Inv w
      → Inv w'
  unfolding dispatch
  dispatch-Inv e w w' h added v =
      let both = e.broken || e.hung_up in
      let w0 = record w { writes = e.writes } in
      let (w1, first, second) =
        >>=-eq-ok
          (if e.readable || both then read_conn callback e (getconnptr e.fd w0.conns) w0 else ok w0)
          _ h in
      let v0 : Inv w0 = with_writes w e.writes v in
      let v1 : Inv w1 = elim (if-eq (e.readable || both) first) [
        | inl (_, r) ↦ read_conn-Inv e _ w0 w1 r added v0
        | inr (_, r) ↦ subst Inv (ok-injective r) v0
      ] in
      elim (if-eq (e.writable || both) second) [
        | inl (_, r) ↦ write_conn-Inv e.fd _ w1 w' r v1
        | inr (_, r) ↦ subst Inv (ok-injective r) v1
      ]

  dispatcher-Inv :
      (es : List Event) (w w' : World)
      → dispatcher callback es w ≡ ok w'
      → All EachAdded es
      → Inv w
      → Inv w'
  unfolding dispatcher
  dispatcher-Inv [] w w' h added v = subst Inv (ok-injective h) v
  dispatcher-Inv (e ∷ es) w w' h added v =
      let (w1, a, k) = >>=-eq-ok (dispatch callback e w) _ h in
      dispatcher-Inv es w1 w' k added.1 (dispatch-Inv e w w1 a added.0 v)

-- A sweep that goes well changes nothing.
pub sweep-ok : (cs : Conns) (w w' : World) → sweep cs w ≡ ok w' → w ≡ w'
unfolding sweep
sweep-ok [] w w' h = ok-injective h
sweep-ok ((s, c) ∷ cs) w w' h = ground (arith, sweep-ok cs w w')

-- Every run of the server that meets no fault and in which `epoll_ctl` adds each new descriptor keeps the
-- invariant, whatever the callback, the ready events and the answers to `read`, `write` and `accept`:
-- epoll watches exactly the descriptors that have a connection, no call goes to a descriptor that is
-- not watched, and none is closed while it is watched.
pub run-Inv :
    (callback : Bytes → Bytes → Option (Bytes × Bytes)) (rounds : List (ℕ × List Event))
    (w w' : World)
    → run callback rounds w ≡ ok w'
    → All RoundAdds rounds
    → Inv w
    → Inv w'
unfolding run run_round
run-Inv callback [] w w' h added v = subst Inv (ok-injective h) v
run-Inv callback ((now, es) ∷ rounds) w w' h added v =
    let (w2, a, k) = >>=-eq-ok (run_round callback now es w) _ h in
    let (w1, b, swept) = >>=-eq-ok (dispatcher callback es (record w { clock = now })) _ a in
    let v0 : Inv (record w { clock = now }) = record { tracked = v.tracked; sound = v.sound } in
    let v1 = dispatcher-Inv callback es (record w { clock = now }) w1 b added.0 v0 in
    run-Inv callback rounds w2 w' k added.1 (subst Inv (sweep-ok w1.conns w1 w2 swept) v1)
