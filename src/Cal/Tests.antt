-- ===== src/Cal/Tests.antt =====
-- Runs of the calculator of IO/reactor/cal.hpp, and its theorems at concrete equations.
use linux_learning_machine_c.Base.{ℕ, ◌^◌, ◌-◌, ◌≡◌, refl, ◌≢◌, ◌↔◌, ◌⊎◌, false, none, some}
use linux_learning_machine_c.Base.Int.{pos, negsuc, ◌+ℤ◌, ◌-ℤ◌, ◌*ℤ◌, quot, rem, fits}
use linux_learning_machine_c.Cal.{Equation, normol, devzero, calculator, normal, failed}
use linux_learning_machine_c.Cal.Outcome.{Coded, exact, calculator_sound}
use linux_learning_machine_c.Cal.Division.{calculator_undefined_iff, IsMinByMinusOne}

abbrev minus_seven_by : ℕ → Equation
minus_seven_by c = record { x = negsuc 6; y = pos 2; op = c }

calculator_runs :
    (calculator (minus_seven_by b'/') ≡ some (normal (negsuc 2)))
    × (calculator (minus_seven_by b'%') ≡ some (normal (negsuc 0)))
    × (calculator (record { x = pos 5; y = pos 0; op = b'/' }) ≡ some (failed devzero))
    × (calculator (record { x = pos (2 ^ 31 - 1); y = pos 1; op = b'+' }) ≡ none)
unfolding calculator quot rem ◌+ℤ◌
calculator_runs = (refl, refl, refl, refl)

calculator_sound_example :
    Coded (minus_seven_by b'/') normol
    × ((normol ≡ normol) → negsuc 2 ≡ exact (minus_seven_by b'/'))
    × ((normol ≢ normol) → negsuc 2 ≡ pos 0)
unfolding calculator quot
calculator_sound_example = calculator_sound (minus_seven_by b'/') (normal (negsuc 2)) refl

abbrev lowest : Equation
lowest = record { x = negsuc (2 ^ 31 - 1); y = negsuc 0; op = b'%' }

calculator_undefined_iff_example : (calculator lowest ≡ none) ↔ (
    ((lowest.op ≡ b'+') × (fits (lowest.x +ℤ lowest.y) ≡ false))
    ⊎ ((lowest.op ≡ b'-') × (fits (lowest.x -ℤ lowest.y) ≡ false))
    ⊎ ((lowest.op ≡ b'*') × (fits (lowest.x *ℤ lowest.y) ≡ false))
    ⊎ (((lowest.op ≡ b'/') ⊎ (lowest.op ≡ b'%')) × IsMinByMinusOne lowest.x lowest.y))
calculator_undefined_iff_example = calculator_undefined_iff lowest refl refl
