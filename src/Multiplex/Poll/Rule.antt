-- ===== src/Multiplex/Poll/Rule.antt =====
-- IO/poll_server: what every entry of the array keeps, a pass keeps.
use mathlib.Core.Path.{subst}
use linux_learning_machine_c.Base.{
  ℕ, zero, suc, ◌≡◌, Option, some, >>=-eq-some, some-injective, Bytes, length,
}
use linux_learning_machine_c.Multiplex.Poll.{
  PollServer, Answers, handle_slot, handle_from, handle_events,
}

module _ (callback : Bytes → Option Bytes) (P : PollServer → Type 0) (a : Answers)
    (step : (i : ℕ) (s s' : PollServer) → handle_slot callback a i s ≡ some s' → P s → P s') where
  handle_from_rule :
      (n i : ℕ) (s s' : PollServer) → handle_from callback a n i s ≡ some s' → P s → P s'
  unfolding handle_from
  handle_from_rule zero i s s' h v = subst P (some-injective h) v
  handle_from_rule (suc n) i s s' h v =
      let (s1, e, k) = >>=-eq-some (handle_slot callback a i s) _ h in
      handle_from_rule n (suc i) s1 s' k (step i s s1 e v)

  pub handle_events_rule : (s s' : PollServer) → handle_events callback a s ≡ some s' → P s → P s'
  unfolding handle_events
  handle_events_rule s s' = handle_from_rule (length s.fds) 0 s s'
