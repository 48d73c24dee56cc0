-- ===== src/Cal/Division.antt =====
-- The two division cases of IO/reactor/cal.hpp together, and where an operation is undefined.
use linux_learning_machine_c.Base.{
  ℕ, zero, suc, ◌-◌, ◌^◌, ◌<◌, ◌≡◌, refl, ◌⊎◌, ◌↔◌, true, false, none, some, arith,
}
use linux_learning_machine_c.Base.Int.{
  ℤ, pos, negsuc, ◌+ℤ◌, ◌-ℤ◌, ◌*ℤ◌, quot, rem, fits, is_zero, abs,
}
use linux_learning_machine_c.Cal.{Equation, Result, calculator}

quot-rem : (x y : ℤ) → is_zero y ≡ false → quot x y *ℤ y +ℤ rem x y ≡ x
unfolding quot rem ◌*ℤ◌ ◌+ℤ◌
quot-rem (pos a) (pos b) h = ground arith
quot-rem (pos a) (negsuc b) h = ground arith
quot-rem (negsuc a) (pos b) h = ground arith
quot-rem (negsuc a) (negsuc b) h = ground arith

rem-lt : (x y : ℤ) → is_zero y ≡ false → abs (rem x y) < abs y
unfolding rem
rem-lt (pos a) (pos b) h = ground arith
rem-lt (pos a) (negsuc b) h = ground arith
rem-lt (negsuc a) (pos b) h = ground arith
rem-lt (negsuc a) (negsuc b) h = ground arith

abbrev pub with_op : Equation → ℕ → Equation
with_op e c = record e { op = c }

-- If the calculator answers both x / y and x % y and the divisor is not zero, then the answers q and
-- r satisfy q * y + r = x with |r| < |y|.
pub division_law :
    (e : Equation) (q r : Result)
    → is_zero e.y ≡ false
    → calculator (with_op e b'/') ≡ some q
    → calculator (with_op e b'%') ≡ some r
    → (q.num *ℤ e.y +ℤ r.num ≡ e.x) × (abs r.num < abs e.y)
unfolding calculator
division_law e q r nz hq hr = ground (arith, quot-rem e.x e.y nz, rem-lt e.x e.y nz)

-- The one pair of `int`s whose quotient is no `int`.
abbrev pub IsMinByMinusOne : ℤ → ℤ → Type 0
IsMinByMinusOne x y = (x ≡ negsuc (2 ^ 31 - 1)) × (y ≡ negsuc 0)

fits-quot :
    (x y : ℤ) → fits x ≡ true → is_zero y ≡ false → fits (quot x y) ≡ false → IsMinByMinusOne x y
unfolding quot
fits-quot (pos a) (pos b) hx nz h = ground arith
fits-quot (pos a) (negsuc b) hx nz h = ground arith
fits-quot (negsuc a) (pos b) hx nz h = ground arith
fits-quot (negsuc a) (negsuc zero) hx nz h = ground arith
fits-quot (negsuc a) (negsuc (suc b)) hx nz h = ground arith

fits-quot_of_min : (x y : ℤ) → IsMinByMinusOne x y → (is_zero y ≡ false) × (fits (quot x y) ≡ false)
unfolding quot
fits-quot_of_min x y (ex, ey) = rw (ex, ey) (refl, refl)

-- On two `int`s the calculator has no answer exactly where C++ leaves the operation undefined: a
-- sum, difference or product outside the range of `int`, or the least `int` by -1 (its quotient
-- and its remainder). Division by zero and unknown operators always have an answer.
pub calculator_undefined_iff :
    (e : Equation)
    → fits e.x ≡ true
    → fits e.y ≡ true
    → (calculator e ≡ none) ↔ (
        ((e.op ≡ b'+') × (fits (e.x +ℤ e.y) ≡ false))
        ⊎ ((e.op ≡ b'-') × (fits (e.x -ℤ e.y) ≡ false))
        ⊎ ((e.op ≡ b'*') × (fits (e.x *ℤ e.y) ≡ false))
        ⊎ (((e.op ≡ b'/') ⊎ (e.op ≡ b'%')) × IsMinByMinusOne e.x e.y))
unfolding calculator
calculator_undefined_iff e hx hy =
    (λ h. ground (arith, fits-quot e.x e.y hx), λ h. ground (arith, fits-quot_of_min e.x e.y))
