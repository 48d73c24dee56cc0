-- ===== src/Multiplex/Poll/Readiness.antt =====
-- IO/poll_server: `poll_server` reads only what `poll` has reported.
use mathlib.Core.Path.{subst}
use linux_learning_machine_c.Base.{
  ℕ, ◌+◌, ◌≡◌, ◌≢◌, refl, ◌==◌, Bool, true, false, not, ◌&&◌, if-eq, Option, none, some,
  Option-cases, inl, inr, Bool-cases, >>=-eq-some, some-injective, List, [], ◌∷◌, map, Bytes,
  length, get_or, All, All-set, All-get_or, arith, ap, sym, ◌∙◌,
}
use linux_learning_machine_c.Reactor.Kernel.{Read}
use linux_learning_machine_c.Multiplex.Call.{Call, one, asks, line_of}
use linux_learning_machine_c.Multiplex.Slots.{free_slot, free_slot-is_free}
use linux_learning_machine_c.Multiplex.Poll.Rule.{handle_events_rule}
use linux_learning_machine_c.Multiplex.Poll.{
  Pollfd, fd_of, PollServer, Answers, resetpollfd, watch, acceptor, reported, poll_entry, recver,
  handle_fd, handle_slot, run_round,
}

-- The bit `POLLIN` of `revents` is set only where the descriptor was reported.
abbrev pub Reports : (ℕ → Bool) → Pollfd → Type 0
Reports ready p = p.revents ≡ true → reported ready p.fd ≡ true

-- In a pass that began with `n` reads of `j`.
abbrev pub Unread : (ℕ → Bool) → ℕ → ℕ → PollServer → Type 0
Unread ready j n s = All (Reports ready) s.fds × (asks j s.trace ≡ n)

Reports-poll :
    (ready : ℕ → Bool) (ps : List Pollfd) → All (Reports ready) (map (poll_entry ready) ps)
Reports-poll ready [] = tt
Reports-poll ready (p ∷ ps) = (λ h. ground arith, Reports-poll ready ps)

module _ (callback : Bytes → Option Bytes) (a : Answers) (j n : ℕ) where
  acceptor-Unread :
      (o : Option ℕ) (s : PollServer) → Unread a.ready j n s → Unread a.ready j n (acceptor o s)
  unfolding acceptor asks
  acceptor-Unread none s v = v
  acceptor-Unread (some fd) s (r, v) = elim (Bool-cases (free_slot fd_of s.fds == length s.fds)) [
    | inl full ↦ rw (full) (r, v)
    | inr room ↦
        let i = free_slot fd_of s.fds in
        let free = free_slot-is_free fd_of s.fds resetpollfd room in
        let old = All-get_or (Reports a.ready) s.fds i resetpollfd (λ h. cc) r in
        rw (room) (
          All-set (Reports a.ready) s.fds i (watch fd (get_or s.fds i resetpollfd))
              (λ h. ground (arith, free, old h)) r,
          v,
        )
  ]

  unread_after :
      (fd : ℕ) (t : List Call)
      → a.ready fd ≡ true
      → a.ready j ≡ false
      → asks j t ≡ n
      → one j fd + asks j t ≡ n
  unread_after fd t here there v = let ne : j ≢ fd = λ e. cc (ap a.ready e) in ground arith

  recver-Unread :
      (x : Read) (pos fd : ℕ) (s s' : PollServer)
      → recver callback x pos fd s ≡ some s'
      → a.ready fd ≡ true
      → a.ready j ≡ false
      → Unread a.ready j n s
      → Unread a.ready j n s'
  unfolding recver asks
  recver-Unread (Read.read_error e) pos fd s s' h here there (r, v) =
      subst (Unread a.ready j n) (some-injective h) (
        All-set (Reports a.ready) s.fds pos resetpollfd (λ h. cc) r,
        unread_after fd s.trace here there v,
      )
  recver-Unread Read.closed pos fd s s' h here there (r, v) =
      subst (Unread a.ready j n) (some-injective h) (
        All-set (Reports a.ready) s.fds pos resetpollfd (λ h. cc) r,
        unread_after fd s.trace here there v,
      )
  recver-Unread (Read.got chunk) pos fd s s' h here there (r, v) =
      let (resp, _, k) = >>=-eq-some (callback (line_of chunk)) _ h in
      subst (Unread a.ready j n) (some-injective k) (r, unread_after fd s.trace here there v)

  handle_fd-Unread :
      (i fd : ℕ) (p : Pollfd) (s s' : PollServer)
      → handle_fd callback a i fd p s ≡ some s'
      → p.fd ≡ some fd
      → Reports a.ready p
      → a.ready j ≡ false
      → Unread a.ready j n s
      → Unread a.ready j n s'
  unfolding handle_fd
  handle_fd-Unread i fd p s s' h e reports there v = elim (if-eq (not p.events) h) [
    | inl (_, k) ↦ subst (Unread a.ready j n) (some-injective k) v
    | inr (_, k) ↦ elim (if-eq (fd == s.sock && p.revents) k) [
      | inl (_, m) ↦ subst (Unread a.ready j n) (some-injective m) (acceptor-Unread a.accepts s v)
      | inr (_, m) ↦ elim (if-eq p.revents m) [
        | inl (on, q) ↦
            recver-Unread (a.reads fd) i fd s s' q (ap (reported a.ready) (sym e) ∙ reports on)
              there v
        | inr (_, q) ↦ subst (Unread a.ready j n) (some-injective q) v
      ]
    ]
  ]

  handle_slot-Unread :
      a.ready j ≡ false
      → (i : ℕ) (s s' : PollServer) → handle_slot callback a i s ≡ some s'
      → Unread a.ready j n s
      → Unread a.ready j n s'
  unfolding handle_slot
  handle_slot-Unread there i s s' h v = elim (Option-cases (get_or s.fds i resetpollfd).fd) [
    | inl e ↦ subst (Unread a.ready j n) (some-injective (rw (e, handle_slot) at h)) v
    | inr (fd, e) ↦
        handle_fd-Unread i fd (get_or s.fds i resetpollfd) s s' (rw (e, handle_slot) at h) e
          (All-get_or (Reports a.ready) s.fds i resetpollfd (λ h. cc) v.0) there v
  ]

-- In a round of `run`, a descriptor that `poll` did not report is not read, not even one that the
-- round accepts: a free entry that takes a new client reports nothing.
pub run_round-asks :
    (callback : Bytes → Option Bytes) (a : Answers) (s s' : PollServer) (j : ℕ)
    → run_round callback (some a) s ≡ some s'
    → a.ready j ≡ false
    → asks j s'.trace ≡ asks j s.trace
unfolding run_round
run_round-asks callback a s s' j h there =
    (handle_events_rule callback (Unread a.ready j (asks j s.trace)) a
      (handle_slot-Unread callback a j (asks j s.trace) there)
      (record s { fds = map (poll_entry a.ready) s.fds }) s' h (Reports-poll a.ready s.fds, refl)).1
