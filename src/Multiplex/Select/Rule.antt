-- ===== src/Multiplex/Select/Rule.antt =====
-- IO/select_server: what every entry of the array keeps, every run keeps.
use linux_learning_machine_c.Base.{
  ℕ, zero, suc, ◌≡◌, Option, none, some, >>=-eq-some, some-injective, List, [], ◌∷◌, Bytes, length,
}
use mathlib.Core.Path.{subst}
use linux_learning_machine_c.Multiplex.Select.{
  SelectServer, Answers, handle_slot, handle_from, handle_readevents, fds_of, run_round, run,
}

-- A condition on what `accept` gives, in every round.
abbrev pub InRounds : (Option ℕ → Type 0) → List (Option Answers) → Type 0
InRounds Ok [] = Unit
InRounds Ok (none ∷ rounds) = InRounds Ok rounds
InRounds Ok (some a ∷ rounds) = Ok a.accepts × InRounds Ok rounds

pub InRounds-all :
    (Ok : Option ℕ → Type 0)
    → ((o : Option ℕ) → Ok o)
    → (rounds : List (Option Answers)) → InRounds Ok rounds
InRounds-all Ok all [] = tt
InRounds-all Ok all (none ∷ rounds) = InRounds-all Ok all rounds
InRounds-all Ok all (some a ∷ rounds) = (all a.accepts, InRounds-all Ok all rounds)

module _ (callback : Bytes → Option Bytes) (P : SelectServer → Type 0) (Ok : Option ℕ → Type 0)
    (step : (a : Answers) (i : ℕ) (s s' : SelectServer)
      → handle_slot callback a i s ≡ some s'
      → Ok a.accepts
      → P s
      → P s') where
  handle_from_rule :
      (a : Answers) (n i : ℕ) (s s' : SelectServer)
      → handle_from callback a n i s ≡ some s'
      → Ok a.accepts
      → P s
      → P s'
  unfolding handle_from
  handle_from_rule a zero i s s' h ok v = subst P (some-injective h) v
  handle_from_rule a (suc n) i s s' h ok v =
      let (s1, e, k) = >>=-eq-some (handle_slot callback a i s) _ h in
      handle_from_rule a n (suc i) s1 s' k ok (step a i s s1 e ok v)

  pub run_rule :
      (rounds : List (Option Answers)) (s s' : SelectServer)
      → run callback rounds s ≡ some s'
      → InRounds Ok rounds
      → P s
      → P s'
  unfolding run run_round handle_readevents
  run_rule [] s s' h ok v = subst P (some-injective h) v
  run_rule (none ∷ rounds) s s' h ok v =
      let (s1, e, k) = >>=-eq-some (run_round callback none s) _ h in
      let (fds, _, r) = >>=-eq-some (fds_of s.rfdarray) _ e in
      run_rule rounds s1 s' k ok (subst P (some-injective r) v)
  run_rule (some a ∷ rounds) s s' h ok v =
      let (s1, e, k) = >>=-eq-some (run_round callback (some a) s) _ h in
      let (fds, _, r) = >>=-eq-some (fds_of s.rfdarray) _ e in
      run_rule rounds s1 s' k ok.1 (handle_from_rule _ (length s.rfdarray) 0 s s1 r ok.0 v)
