-- ===== src/Multiplex/Select/Accounts.antt =====
-- IO/select_server: the array of `select_server` holds exactly the descriptors that are open.
use mathlib.Core.Path.{subst}
use linux_learning_machine_c.Base.{
  ℕ, zero, suc, ◌+◌, ◌≡◌, refl, ◌==◌, Option, none, some, >>=-eq-some, some-injective, if-elim,
  Option-cases, Bool-cases, inl, inr, List, Bytes, length, get_or, replicate, arith, ◌&&◌,
}
use linux_learning_machine_c.Reactor.Kernel.{Read}
use linux_learning_machine_c.Multiplex.Call.{one, accepts, closes, line_of}
use linux_learning_machine_c.Multiplex.Slots.{
  free_slot, uses, uses-set, used-lt, free_slot-lt, free_slot-is_free,
}
use linux_learning_machine_c.Multiplex.Select.Rule.{InRounds-all, run_rule}
use linux_learning_machine_c.Multiplex.Select.{
  fd_of, SelectServer, Answers, init, acceptor, recver, handle_fd, handle_slot, run, drop_client,
  send,
}

-- Every descriptor that `accept` gave out, and the listening socket, stands in the array or was
-- closed, as often as it was given out.
abbrev pub IsAccounted : SelectServer → Type 0
IsAccounted s =
    (j : ℕ) → accepts j s.trace + one j s.sock ≡ uses fd_of j s.rfdarray + closes j s.trace

acceptor-IsAccounted :
    (o : Option ℕ) (s : SelectServer) → IsAccounted s → IsAccounted (acceptor o s)
unfolding acceptor accepts closes
acceptor-IsAccounted none s v j = v j
acceptor-IsAccounted (some fd) s v j =
    elim (Bool-cases (free_slot fd_of s.rfdarray == length s.rfdarray)) [
      | inl full ↦ rw (full) (omega (arith, v j))
      | inr room ↦
          let free = free_slot-is_free fd_of s.rfdarray none room in
          let change =
            uses-set fd_of j s.rfdarray (free_slot fd_of s.rfdarray) (some fd) none none
              (free_slot-lt fd_of s.rfdarray room) free in
          rw (room) (omega (arith, v j, change))
    ]

module _ (callback : Bytes → Option Bytes) where
  drop_client-IsAccounted :
      (pos fd : ℕ) (s : SelectServer)
      → get_or s.rfdarray pos none ≡ some fd
      → IsAccounted s
      → IsAccounted (drop_client callback pos fd s)
  unfolding accepts closes
  drop_client-IsAccounted pos fd s e v j = omega (
    arith,
    v j,
    uses-set fd_of j s.rfdarray pos none none (some fd)
        (used-lt fd_of s.rfdarray pos none fd refl e) e,
  )

  send-IsAccounted :
      (fd : ℕ) (b : Bytes) (s : SelectServer) → IsAccounted s → IsAccounted (send callback fd b s)
  unfolding accepts closes
  send-IsAccounted fd b s v j = v j

  recver-IsAccounted :
      (r : Read) (pos fd : ℕ) (s s' : SelectServer)
      → recver callback r pos fd s ≡ some s'
      → get_or s.rfdarray pos none ≡ some fd
      → IsAccounted s
      → IsAccounted s'
  unfolding recver
  recver-IsAccounted (Read.read_error x) pos fd s s' h e v =
      subst IsAccounted (some-injective h) (drop_client-IsAccounted pos fd s e v)
  recver-IsAccounted Read.closed pos fd s s' h e v =
      subst IsAccounted (some-injective h) (drop_client-IsAccounted pos fd s e v)
  recver-IsAccounted (Read.got chunk) pos fd s s' h e v =
      let (resp, _, k) = >>=-eq-some (callback (line_of chunk)) _ h in
      subst IsAccounted (some-injective k) (send-IsAccounted fd resp s v)

  handle_fd-IsAccounted :
      (a : Answers) (i fd : ℕ) (s s' : SelectServer)
      → handle_fd callback a i fd s ≡ some s'
      → get_or s.rfdarray i none ≡ some fd
      → IsAccounted s
      → IsAccounted s'
  unfolding handle_fd
  handle_fd-IsAccounted a i fd s s' h e v =
      if-elim (λ r. r ≡ some s' → IsAccounted s') (a.ready fd && fd == s.sock)
        (λ k. subst IsAccounted (some-injective k) (acceptor-IsAccounted a.accepts s v))
        (if-elim (λ r. r ≡ some s' → IsAccounted s') (a.ready fd)
          (λ k. recver-IsAccounted (a.reads fd) i fd s s' k e v)
          (λ k. subst IsAccounted (some-injective k) v))
        h

  handle_slot-IsAccounted :
      (a : Answers) (i : ℕ) (s s' : SelectServer)
      → handle_slot callback a i s ≡ some s'
      → IsAccounted s
      → IsAccounted s'
  unfolding handle_slot
  handle_slot-IsAccounted a i s s' h v = elim (Option-cases (get_or s.rfdarray i none)) [
    | inl e ↦ subst IsAccounted (some-injective (rw (e, handle_slot) at h)) v
    | inr (fd, e) ↦ handle_fd-IsAccounted a i fd s s' (rw (e, handle_slot) at h) e v
  ]

-- An array of free entries.
pub uses-replicate : (j n : ℕ) → uses fd_of j (replicate n none) ≡ 0
unfolding uses
uses-replicate j zero = refl
uses-replicate j (suc n) = omega (arith, uses-replicate j n)

init-IsAccounted : (sock : ℕ) → IsAccounted (init sock)
unfolding accepts closes uses
init-IsAccounted sock j = omega (arith, uses-replicate j 1023)

-- In every run, whatever the kernel answers: each descriptor that `accept` gave out, and the
-- listening socket, stands in the array as often as it was given out and not closed. None is
-- leaked, and none is closed twice.
pub run-IsAccounted :
    (callback : Bytes → Option Bytes) (sock : ℕ) (rounds : List (Option Answers)) (s : SelectServer)
    → run callback rounds (init sock) ≡ some s
    → IsAccounted s
run-IsAccounted callback sock rounds s h =
    run_rule callback IsAccounted (λ o. Unit)
      (λ a i s s' e ok. handle_slot-IsAccounted callback a i s s' e) rounds (init sock) s h
      (InRounds-all (λ o. Unit) (λ o. tt) rounds) (init-IsAccounted sock)
