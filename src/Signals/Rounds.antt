-- ===== src/Signals/Rounds.antt =====
-- signal_t/signal_t.cc: which signals are caught, and when.
use linux_learning_machine_c.Base.{
  ℕ, suc, ◌+◌, ◌<◌, ◌≡◌, refl, sym, subst, ◌∙◌, ap, ltb, ◌||◌, Bool, true, false, List, [], ◌∷◌,
  ◌++◌, lt→ltb, All, length, arith,
}
use mathlib.Core.Bool.{or_assoc}
use linux_learning_machine_c.Signals.{
  State, arrive_all, round, rounds, started, show, blocksignal, cancelblock, sigset_of, vsige,
}
use linux_learning_machine_c.Signals.Held.{
  IsBlocked, arrives, or_false, IsHeld, arrive_all-Held, let_through, Free, Released,
  sigprocmask-Released, sigprocmask_idle,
}

abbrev pub arrives_in : ℕ → List (List ℕ) → Bool
arrives_in sig [] = false
arrives_in sig (xs ∷ rs) = arrives sig xs || arrives_in sig rs

-- The state between two rounds of the loop.
record IsReady (s : State) (two three : Bool) : Type 0 where
  process : IsHeld s.process two three
  free : Free s.oblock

started-IsReady : (two_first : Bool) → IsReady (started two_first) false false
unfolding started blocksignal
started-IsReady true = record {
  process = record { blocked = (refl, refl); held = (refl, refl) };
  free = (refl, refl);
}
started-IsReady false = record {
  process = record { blocked = (refl, refl); held = (refl, refl) };
  free = (refl, refl);
}

started_plain :
    (two_first : Bool) → ((started two_first).process.caught ≡ []) × ((started two_first).cnt ≡ 0)
unfolding started blocksignal
started_plain true = (refl, refl)
started_plain false = (refl, refl)

module _ (two_first : Bool) where
  round_below :
      (s : State) (a b : Bool)
      → suc s.cnt < 12
      → IsReady s a b
      → IsReady (round two_first s) a b
        × ((round two_first s).process.caught ≡ s.process.caught)
        × ((round two_first s).cnt ≡ suc s.cnt)
  unfolding round show
  round_below s a b h v =
      rw (lt→ltb (suc s.cnt) 12 h, round)
        (
          record {
            process = record { blocked = v.process.blocked; held = v.process.held };
            free = v.free;
          },
          refl,
          refl,
        )

  show-IsReady : (s : State) (a b : Bool) → IsReady s a b → IsReady (show s) a b
  unfolding show
  show-IsReady s a b v = record {
    process = record { blocked = v.process.blocked; held = v.process.held };
    free = v.free;
  }

  show-caught : (s : State) → (show s).process.caught ≡ s.process.caught
  unfolding show
  show-caught s = refl

  cancelblock-Released :
      (s : State) (a b : Bool)
      → IsReady s a b
      → Released two_first s.process s.oblock a b (cancelblock two_first s).process
  unfolding cancelblock
  cancelblock-Released s a b v =
      sigprocmask-Released two_first s.process s.oblock a b v.process v.free

  blocksignal-IsReady :
      (s : State)
      → (s.process.pending 2 ≡ false) × (s.process.pending 3 ≡ false)
      → Free s.process.mask
      → IsReady (blocksignal two_first s) false false
        × ((blocksignal two_first s).process.caught ≡ s.process.caught)
  unfolding blocksignal
  blocksignal-IsReady s e f =
      let (held, same) =
        subst (λ q. IsHeld q false false × (q.caught ≡ s.process.caught))
          (sym (sigprocmask_idle two_first s.process (sigset_of vsige) e.0 e.1))
          (record { blocked = (refl, refl); held = e }, refl) in
      (record { process = held; free = f }, same)

  -- Every twelfth round lets through what is pending.
  round_twelfth :
      (s : State) (a b : Bool)
      → s.cnt ≡ 11
      → IsReady s a b
      → IsReady (round two_first s) false false
        × ((round two_first s).process.caught ≡ s.process.caught ++ let_through two_first a b)
  unfolding round
  round_twelfth s a b h v =
      let r = cancelblock-Released (show s) a b (show-IsReady s a b v) in
      let free : Free (cancelblock two_first (show s)).process.mask =
        subst Free (sym r.mask) (show-IsReady s a b v).free in
      let (ready, same) = blocksignal-IsReady (cancelblock two_first (show s)) r.nothing free in
      let full : ltb (suc s.cnt) 12 ≡ false = ground (arith, h) in
      rw (full, round)
        (
          record { process = ready.process; free = ready.free },
          same ∙ r.caught ∙ ap (λ l. l ++ let_through two_first a b) (show-caught s),
        )

  -- The signals that arrive in front of a round.
  abbrev taken_in : List ℕ → State → State
  taken_in sigs s = record s { process = arrive_all sigs s.process }

  taken_in-IsReady :
      (sigs : List ℕ) (s : State) (a b : Bool)
      → All IsBlocked sigs
      → IsReady s a b
      → IsReady (taken_in sigs s) (a || arrives 2 sigs) (b || arrives 3 sigs)
        × ((taken_in sigs s).process.caught ≡ s.process.caught)
  taken_in-IsReady sigs s a b h v =
      let (held, same) = arrive_all-Held sigs s.process a b h v.process in
      (record { process = held; free = v.free }, same)

  -- Below twelve rounds nothing is caught, and all that arrives is held.
  rounds_below :
      (rs : List (List ℕ)) (s : State) (a b : Bool)
      → s.cnt + length rs < 12
      → All (All IsBlocked) rs
      → IsReady s a b
      → IsReady (rounds two_first rs s) (a || arrives_in 2 rs) (b || arrives_in 3 rs)
        × ((rounds two_first rs s).process.caught ≡ s.process.caught)
        × ((rounds two_first rs s).cnt ≡ s.cnt + length rs)
  unfolding rounds
  rounds_below [] s a b l h v = rw (or_false a, or_false b) (v, refl, omega arith)
  rounds_below (sigs ∷ rs) s a b l h v =
      let (taken, same) = taken_in-IsReady sigs s a b h.0 v in
      let (ready, kept, count) =
        round_below (taken_in sigs s) (a || arrives 2 sigs) (b || arrives 3 sigs) (omega (arith, l))
          taken in
      let (last, rest, total) =
        rounds_below rs (round two_first (taken_in sigs s)) (a || arrives 2 sigs)
          (b || arrives 3 sigs) (omega (arith, l, count)) h.1 ready in
      (
        subst
            (λ c.
              IsReady (rounds two_first rs (round two_first (taken_in sigs s))) c
                (b || arrives_in 3 (sigs ∷ rs)))
            (or_assoc a (arrives 2 sigs) (arrives_in 2 rs))
            (subst
              (λ c.
                IsReady (rounds two_first rs (round two_first (taken_in sigs s)))
                  ((a || arrives 2 sigs) || arrives_in 2 rs) c)
              (or_assoc b (arrives 3 sigs) (arrives_in 3 rs)) last),
        rest ∙ kept ∙ same,
        omega (arith, total, count),
      )

  rounds-append :
      (rs : List (List ℕ)) (sigs : List ℕ) (s : State)
      → rounds two_first (rs ++ sigs ∷ []) s
        ≡ round two_first (taken_in sigs (rounds two_first rs s))
  unfolding rounds
  rounds-append [] sigs s = refl
  rounds-append (x ∷ rs) sigs s = rounds-append rs sigs (round two_first (taken_in x s))

  -- Where only the two signals that are blocked arrive, in front of twelve rounds: in the first eleven
  -- nothing is caught, and the twelfth lets each of the two through once if it arrived at all, however
  -- often it arrived, in the order in which the kernel delivers them, whichever it is.
  pub caught_once :
      (rs : List (List ℕ)) (sigs : List ℕ)
      → length rs ≡ 11
      → All (All IsBlocked) rs
      → All IsBlocked sigs
      → ((rounds two_first rs (started two_first)).process.caught ≡ [])
        × ((rounds two_first (rs ++ sigs ∷ []) (started two_first)).process.caught
            ≡ let_through two_first
                (arrives_in 2 rs || arrives 2 sigs)
                (arrives_in 3 rs || arrives 3 sigs))
  caught_once rs sigs l h k =
      let (ready, none_yet, count) =
        rounds_below rs (started two_first) false false
          (omega (arith, l, (started_plain two_first).1)) h (started-IsReady two_first) in
      let (taken, same) =
        taken_in-IsReady sigs (rounds two_first rs (started two_first)) (arrives_in 2 rs)
          (arrives_in 3 rs) k ready in
      let (again, out) =
        round_twelfth (taken_in sigs (rounds two_first rs (started two_first)))
          (arrives_in 2 rs || arrives 2 sigs) (arrives_in 3 rs || arrives 3 sigs)
          (omega (arith, count, l, (started_plain two_first).1)) taken in
      let nothing = none_yet ∙ (started_plain two_first).0 in
      (
        nothing,
        ap (λ s. s.process.caught) (rounds-append rs sigs (started two_first))
            ∙ out
            ∙ ap
                (λ c.
                  c
                  ++ let_through two_first (arrives_in 2 rs || arrives 2 sigs)
                      (arrives_in 3 rs || arrives 3 sigs))
                (same ∙ nothing),
      )
