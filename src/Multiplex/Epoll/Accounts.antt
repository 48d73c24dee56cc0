-- ===== src/Multiplex/Epoll/Accounts.antt =====
-- IO/epoll_server: what `epoll_server` has open and what epoll watches for it.
use mathlib.Core.Path.{subst}
use linux_learning_machine_c.Base.{
  ℕ, ◌+◌, ◌≡◌, refl, ◌==◌, ◌&&◌, if-elim, Option, none, some, >>=-eq-some, some-injective, List, [],
  ◌∷◌, Bytes, arith,
}
use linux_learning_machine_c.Reactor.Kernel.{Read}
use linux_learning_machine_c.Multiplex.Call.{one, accepts, closes, adds, removes, line_of}
use linux_learning_machine_c.Multiplex.Epoll.{
  EpollServer, Event, Waited, time_wait, init, acceptor, drop_client, recver, handle_event,
  handle_events, run,
}

-- Every descriptor is watched as often as it was given out, and taken off as often as it was closed.
abbrev pub IsTied : EpollServer → Type 0
IsTied s =
    (j : ℕ)
    → (adds j s.trace ≡ accepts j s.trace + one j s.sock) × (removes j s.trace ≡ closes j s.trace)

acceptor-IsTied : (o : Option ℕ) (s : EpollServer) → IsTied s → IsTied (acceptor o s)
unfolding acceptor accepts closes adds removes
acceptor-IsTied none s v j = v j
acceptor-IsTied (some fd) s v j = (omega (arith, (v j).0), (v j).1)

module _ (callback : Bytes → Option Bytes) where
  drop_client-IsTied : (fd : ℕ) (s : EpollServer) → IsTied s → IsTied (drop_client callback fd s)
  unfolding accepts closes adds removes
  drop_client-IsTied fd s v j = ((v j).0, omega (arith, (v j).1))

  recver-IsTied :
      (r : Read) (fd : ℕ) (s s' : EpollServer)
      → recver callback r fd s ≡ some s'
      → IsTied s
      → IsTied s'
  unfolding recver accepts closes adds removes
  recver-IsTied (Read.read_error x) fd s s' h v =
      subst IsTied (some-injective h) (drop_client-IsTied fd s v)
  recver-IsTied Read.closed fd s s' h v =
      subst IsTied (some-injective h) (drop_client-IsTied fd s v)
  recver-IsTied (Read.got chunk) fd s s' h v =
      let (resp, _, k) = >>=-eq-some (callback (line_of chunk)) _ h in
      subst IsTied (some-injective k) v

  handle_event-IsTied :
      (e : Event) (s s' : EpollServer) → handle_event callback e s ≡ some s' → IsTied s → IsTied s'
  unfolding handle_event
  handle_event-IsTied e s s' h v =
      let P : Option EpollServer → Type 0 = λ r. r ≡ some s' → IsTied s' in
      if-elim P (e.fd == s.sock && e.readable)
        (λ k. subst IsTied (some-injective k) (acceptor-IsTied e.accepts s v))
        (if-elim P e.readable (λ k. recver-IsTied e.reads e.fd s s' k v)
          (λ k. subst IsTied (some-injective k) v))
        h

  handle_events-IsTied :
      (es : List Event) (s s' : EpollServer)
      → handle_events callback es s ≡ some s'
      → IsTied s
      → IsTied s'
  unfolding handle_events
  handle_events-IsTied [] s s' h v = subst IsTied (some-injective h) v
  handle_events-IsTied (e ∷ es) s s' h v =
      let (s1, x, k) = >>=-eq-some (handle_event callback e s) _ h in
      handle_events-IsTied es s1 s' k (handle_event-IsTied e s s1 x v)

  rounds-IsTied :
      (rounds : List Waited) (s s' : EpollServer)
      → run callback rounds s ≡ some s'
      → IsTied s
      → IsTied s'
  unfolding run
  rounds-IsTied [] s s' h v = subst IsTied (some-injective h) v
  rounds-IsTied (w ∷ rounds) s s' h v =
      let (s1, x, k) = >>=-eq-some (handle_events callback (time_wait w) s) _ h in
      rounds-IsTied rounds s1 s' k (handle_events-IsTied (time_wait w) s s1 x v)

init-IsTied : (sock : ℕ) → IsTied (init sock)
unfolding accepts closes adds removes
init-IsTied sock j = (omega arith, refl)

-- In every run, whatever the kernel answers: each descriptor that `accept` gave out, and the
-- listening socket, was put under the watch of epoll as often as it was given out, and taken off it
-- as often as it was closed.
pub run-IsTied :
    (callback : Bytes → Option Bytes) (sock : ℕ) (rounds : List Waited) (s : EpollServer)
    → run callback rounds (init sock) ≡ some s
    → IsTied s
run-IsTied callback sock rounds s h =
    rounds-IsTied callback rounds (init sock) s h (init-IsTied sock)
