-- ===== src/Multiplex/Select/Listening.antt =====
-- IO/select_server: `select_server` goes on listening.
use mathlib.Core.Path.{subst}
use linux_learning_machine_c.Base.{
  ℕ, ◌≡◌, ◌≢◌, refl, ◌==◌, Option, none, some, >>=-eq-some, some-injective, Option-cases, inl, inr,
  List, Bytes, get_or, arith, ◌&&◌, if-eq,
}
use linux_learning_machine_c.Reactor.Kernel.{Read}
use linux_learning_machine_c.Multiplex.Call.{accepts, closes, line_of}
use linux_learning_machine_c.Multiplex.Slots.{uses}
use linux_learning_machine_c.Multiplex.Select.Rule.{InRounds, run_rule}
use linux_learning_machine_c.Multiplex.Select.Accounts.{run-IsAccounted}
use linux_learning_machine_c.Multiplex.Select.{
  fd_of, SelectServer, Answers, init, acceptor, recver, handle_fd, handle_slot, run,
}

-- Nothing but the listening socket has the descriptor `l`, and it was not closed.
abbrev pub IsOpen : ℕ → SelectServer → Type 0
IsOpen l s = (s.sock ≡ l) × (accepts l s.trace ≡ 0) × (closes l s.trace ≡ 0)

abbrev pub IsOther : ℕ → Option ℕ → Type 0
IsOther l o = o ≢ some l

module _ (callback : Bytes → Option Bytes) (l : ℕ) where
  acceptor-IsOpen :
      (o : Option ℕ) (s : SelectServer) → IsOther l o → IsOpen l s → IsOpen l (acceptor o s)
  unfolding acceptor accepts closes
  acceptor-IsOpen none s ne v = v
  acceptor-IsOpen (some fd) s ne (e, a, c) = ground arith

  recver-IsOpen :
      (r : Read) (pos fd : ℕ) (s s' : SelectServer)
      → recver callback r pos fd s ≡ some s'
      → fd ≢ l
      → IsOpen l s
      → IsOpen l s'
  unfolding recver accepts closes
  recver-IsOpen (Read.read_error x) pos fd s s' h ne (e, a, c) =
      subst (IsOpen l) (some-injective h) (e, a, ground arith)
  recver-IsOpen Read.closed pos fd s s' h ne (e, a, c) =
      subst (IsOpen l) (some-injective h) (e, a, ground arith)
  recver-IsOpen (Read.got chunk) pos fd s s' h ne v =
      let (resp, _, k) = >>=-eq-some (callback (line_of chunk)) _ h in
      subst (IsOpen l) (some-injective k) v

  handle_fd-IsOpen :
      (a : Answers) (i fd : ℕ) (s s' : SelectServer)
      → handle_fd callback a i fd s ≡ some s'
      → IsOther l a.accepts
      → IsOpen l s
      → IsOpen l s'
  unfolding handle_fd
  handle_fd-IsOpen a i fd s s' h ne v = elim (if-eq (a.ready fd && fd == s.sock) h) [
    | inl (b, k) ↦ subst (IsOpen l) (some-injective k) (acceptor-IsOpen a.accepts s ne v)
    | inr (b, k) ↦ elim (if-eq (a.ready fd) k) [
      | inl (r, m) ↦ recver-IsOpen (a.reads fd) i fd s s' m (ground (arith, v.0)) v
      | inr (r, m) ↦ subst (IsOpen l) (some-injective m) v
    ]
  ]

  handle_slot-IsOpen :
      (a : Answers) (i : ℕ) (s s' : SelectServer)
      → handle_slot callback a i s ≡ some s'
      → IsOther l a.accepts
      → IsOpen l s
      → IsOpen l s'
  unfolding handle_slot
  handle_slot-IsOpen a i s s' h ne v = elim (Option-cases (get_or s.rfdarray i none)) [
    | inl e ↦ subst (IsOpen l) (some-injective (rw (e, handle_slot) at h)) v
    | inr (fd, e) ↦ handle_fd-IsOpen a i fd s s' (rw (e, handle_slot) at h) ne v
  ]

-- If `accept` never gives out the descriptor of the listening socket, as it is open, then in every
-- run the listening socket stands in the array exactly once: it is never closed, and no client's
-- entry takes its place.
pub run-listens :
    (callback : Bytes → Option Bytes) (sock : ℕ) (rounds : List (Option Answers)) (s : SelectServer)
    → InRounds (IsOther sock) rounds
    → run callback rounds (init sock) ≡ some s
    → uses fd_of sock s.rfdarray ≡ 1
unfolding accepts closes
run-listens callback sock rounds s ne h =
    let (e, a, c) =
      run_rule callback (IsOpen sock) (IsOther sock) (handle_slot-IsOpen callback sock) rounds
        (init sock) s h ne (refl, refl, refl) in
    ground (arith, run-IsAccounted callback sock rounds s h sock, a, c)
