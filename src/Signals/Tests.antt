-- ===== src/Signals/Tests.antt =====
-- The process of signal_t on twelve rounds.
use linux_learning_machine_c.Base.{ℕ, false, ◌≡◌, refl, inl, inr, List, [], ◌∷◌, ◌++◌, All}
use linux_learning_machine_c.Signals.{started, rounds}
use linux_learning_machine_c.Signals.Held.{IsBlocked}
use linux_learning_machine_c.Signals.Rounds.{caught_once}

-- The kernel delivers 3 first. Signal 3 arrives in front of the second round, and twice in front of the fourth.
abbrev eleven : List (List ℕ)
eleven = [] ∷ (3 ∷ []) ∷ [] ∷ (3 ∷ 3 ∷ []) ∷ [] ∷ [] ∷ [] ∷ [] ∷ [] ∷ [] ∷ [] ∷ []

eleven-IsBlocked : All (All IsBlocked) eleven
eleven-IsBlocked = (
  tt,
  (
    (inr refl, tt),
    (tt, ((inr refl, (inr refl, tt)), (tt, (tt, (tt, (tt, (tt, (tt, (tt, tt))))))))),
  ),
)

caught_once_example :
    ((rounds false eleven (started false)).process.caught ≡ [])
    × ((rounds false (eleven ++ (2 ∷ []) ∷ []) (started false)).process.caught ≡ 3 ∷ 2 ∷ [])
caught_once_example = caught_once false eleven (2 ∷ []) refl eleven-IsBlocked (inl refl, tt)
