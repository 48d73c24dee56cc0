-- ===== src/Multiplex/Poll/Accounts.antt =====
-- IO/poll_server: the array of `poll_server` holds exactly the descriptors that are open.
use mathlib.Core.Path.{subst}
use linux_learning_machine_c.Base.{
  ℕ, zero, suc, ◌+◌, ◌≡◌, refl, ◌==◌, Bool, not, ◌&&◌, if-elim, Option, none, some, Option-cases,
  inl, inr, Bool-cases, >>=-eq-some, some-injective, List, [], ◌∷◌, map, Bytes, length, get_or,
  replicate, arith,
}
use linux_learning_machine_c.Reactor.Kernel.{Read}
use linux_learning_machine_c.Multiplex.Call.{one, accepts, closes, line_of}
use linux_learning_machine_c.Multiplex.Slots.{
  free_slot, uses, uses-set, used-lt, free_slot-lt, free_slot-is_free,
}
use linux_learning_machine_c.Multiplex.Poll.Rule.{handle_events_rule}
use linux_learning_machine_c.Multiplex.Poll.{
  Pollfd, fd_of, PollServer, Answers, init, resetpollfd, watch, acceptor, poll_entry, drop_client,
  send, recver, handle_fd, handle_slot, run_round, run,
}

-- Every descriptor that `accept` gave out, and the listening socket, stands in the array or was
-- closed, as often as it was given out.
abbrev pub IsBalanced : PollServer → Type 0
IsBalanced s = (j : ℕ) → accepts j s.trace + one j s.sock ≡ uses fd_of j s.fds + closes j s.trace

acceptor-IsBalanced : (o : Option ℕ) (s : PollServer) → IsBalanced s → IsBalanced (acceptor o s)
unfolding acceptor accepts closes
acceptor-IsBalanced none s v j = v j
acceptor-IsBalanced (some fd) s v j = elim (Bool-cases (free_slot fd_of s.fds == length s.fds)) [
  | inl full ↦ rw (full) (omega (arith, v j))
  | inr room ↦
      let i = free_slot fd_of s.fds in
      let change =
        uses-set fd_of j s.fds i (watch fd (get_or s.fds i resetpollfd)) resetpollfd none
          (free_slot-lt fd_of s.fds room) (free_slot-is_free fd_of s.fds resetpollfd room) in
      rw (room) (omega (arith, v j, change))
]

module _ (callback : Bytes → Option Bytes) where
  drop_client-IsBalanced :
      (pos fd : ℕ) (s : PollServer)
      → (get_or s.fds pos resetpollfd).fd ≡ some fd
      → IsBalanced s
      → IsBalanced (drop_client callback pos fd s)
  unfolding accepts closes
  drop_client-IsBalanced pos fd s e v j = omega (
    arith,
    v j,
    uses-set fd_of j s.fds pos resetpollfd resetpollfd (some fd)
        (used-lt fd_of s.fds pos resetpollfd fd refl e) e,
  )

  send-IsBalanced :
      (fd : ℕ) (b : Bytes) (s : PollServer) → IsBalanced s → IsBalanced (send callback fd b s)
  unfolding accepts closes
  send-IsBalanced fd b s v j = v j

  recver-IsBalanced :
      (r : Read) (pos fd : ℕ) (s s' : PollServer)
      → recver callback r pos fd s ≡ some s'
      → (get_or s.fds pos resetpollfd).fd ≡ some fd
      → IsBalanced s
      → IsBalanced s'
  unfolding recver
  recver-IsBalanced (Read.read_error x) pos fd s s' h e v =
      subst IsBalanced (some-injective h) (drop_client-IsBalanced pos fd s e v)
  recver-IsBalanced Read.closed pos fd s s' h e v =
      subst IsBalanced (some-injective h) (drop_client-IsBalanced pos fd s e v)
  recver-IsBalanced (Read.got chunk) pos fd s s' h e v =
      let (resp, _, k) = >>=-eq-some (callback (line_of chunk)) _ h in
      subst IsBalanced (some-injective k) (send-IsBalanced fd resp s v)

  handle_fd-IsBalanced :
      (a : Answers) (i fd : ℕ) (p : Pollfd) (s s' : PollServer)
      → handle_fd callback a i fd p s ≡ some s'
      → (get_or s.fds i resetpollfd).fd ≡ some fd
      → IsBalanced s
      → IsBalanced s'
  unfolding handle_fd
  handle_fd-IsBalanced a i fd p s s' h e v =
      let P : Option PollServer → Type 0 = λ r. r ≡ some s' → IsBalanced s' in
      if-elim P (not p.events) (λ k. subst IsBalanced (some-injective k) v)
        (if-elim P (fd == s.sock && p.revents)
          (λ k. subst IsBalanced (some-injective k) (acceptor-IsBalanced a.accepts s v))
          (if-elim P p.revents (λ k. recver-IsBalanced (a.reads fd) i fd s s' k e v)
            (λ k. subst IsBalanced (some-injective k) v)))
        h

  handle_slot-IsBalanced :
      (a : Answers) (i : ℕ) (s s' : PollServer)
      → handle_slot callback a i s ≡ some s'
      → IsBalanced s
      → IsBalanced s'
  unfolding handle_slot
  handle_slot-IsBalanced a i s s' h v = elim (Option-cases (get_or s.fds i resetpollfd).fd) [
    | inl e ↦ subst IsBalanced (some-injective (rw (e, handle_slot) at h)) v
    | inr (fd, e) ↦
        handle_fd-IsBalanced a i fd (get_or s.fds i resetpollfd) s s' (rw (e, handle_slot) at h) e v
  ]

-- `poll` changes no descriptor.
uses-poll :
    (j : ℕ) (ready : ℕ → Bool) (ps : List Pollfd)
    → uses fd_of j (map (poll_entry ready) ps) ≡ uses fd_of j ps
unfolding uses
uses-poll j ready [] = refl
uses-poll j ready (p ∷ ps) = omega (arith, uses-poll j ready ps)

uses-reset : (j n : ℕ) → uses fd_of j (replicate n resetpollfd) ≡ 0
unfolding uses
uses-reset j zero = refl
uses-reset j (suc n) = omega (arith, uses-reset j n)

init-IsBalanced : (sock : ℕ) → IsBalanced (init sock)
unfolding accepts closes uses
init-IsBalanced sock j = omega (arith, uses-reset j 1023)

rounds-IsBalanced :
    (callback : Bytes → Option Bytes) (rounds : List (Option Answers)) (s s' : PollServer)
    → run callback rounds s ≡ some s'
    → IsBalanced s
    → IsBalanced s'
unfolding run run_round
rounds-IsBalanced callback [] s s' h v = subst IsBalanced (some-injective h) v
rounds-IsBalanced callback (none ∷ rounds) s s' h v = rounds-IsBalanced callback rounds s s' h v
rounds-IsBalanced callback (some a ∷ rounds) s s' h v =
    let (s1, e, k) = >>=-eq-some (run_round callback (some a) s) _ h in
    let polled = record s { fds = map (poll_entry a.ready) s.fds } in
    rounds-IsBalanced callback rounds s1 s' k (
      handle_events_rule callback IsBalanced a (handle_slot-IsBalanced callback a) polled s1 e
        (λ j. omega (arith, v j, uses-poll j a.ready s.fds)))

-- In every run, whatever the kernel answers: each descriptor that `accept` gave out, and the
-- listening socket, stands in the array as often as it was given out and not closed.
pub run-IsBalanced :
    (callback : Bytes → Option Bytes) (sock : ℕ) (rounds : List (Option Answers)) (s : PollServer)
    → run callback rounds (init sock) ≡ some s
    → IsBalanced s
run-IsBalanced callback sock rounds s h =
    rounds-IsBalanced callback rounds (init sock) s h (init-IsBalanced sock)
