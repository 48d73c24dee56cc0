-- ===== src/Cal/Outcome.antt =====
-- What the calculator of IO/reactor/cal.hpp answers, and when it has an answer.
use linux_learning_machine_c.Base.{
  ℕ, zero, suc, ◌*◌, ◌<◌, ◌%◌, refl, none, get_or, inl, inr, Option-cases, ◌≡◌, ◌≢◌, ◌⊎◌, Bool,
  true, false, some, ◌==◌, ◌||◌, arith,
}
use linux_learning_machine_c.Base.Int.{ℤ, pos, ◌+ℤ◌, ◌-ℤ◌, ◌*ℤ◌, quot, rem, is_zero}
use linux_learning_machine_c.Cal.{
  Equation, Result, ExitCode, normol, devzero, modzero, opwrong, unknown, calculator, operators,
  get_op, randnum, equation_of_draws,
}

-- The value that a switch case stands for, with no bound on its size.
abbrev pub exact : Equation → ℤ
exact e = elim (e.op == b'+') [
  | true ↦ e.x +ℤ e.y
  | false ↦ elim (e.op == b'-') [
    | true ↦ e.x -ℤ e.y
    | false ↦ elim (e.op == b'*') [
      | true ↦ e.x *ℤ e.y
      | false ↦ elim (e.op == b'/') [ true ↦ quot e.x e.y | false ↦ rem e.x e.y ]
    ]
  ]
]

abbrev pub is_operator : ℕ → Bool
is_operator c = c == b'+' || c == b'-' || c == b'*' || c == b'/' || c == b'%'

abbrev pub divides : ℕ → Bool
divides c = c == b'/' || c == b'%'

-- Which code an equation deserves, by the documented meaning of the codes.
abbrev pub Coded : Equation → ExitCode → Type 0
Coded e normol = (is_operator e.op ≡ true) × ((divides e.op ≡ false) ⊎ (is_zero e.y ≡ false))
Coded e devzero = (e.op ≡ b'/') × (is_zero e.y ≡ true)
Coded e modzero = (e.op ≡ b'%') × (is_zero e.y ≡ true)
Coded e opwrong = is_operator e.op ≡ false
Coded e unknown = ⊥

-- If the calculator answers, the code is the one that the operator and the divisor deserve (so it
-- is never `UNKNOWN`); the number is the exact value where the code is `NORMOL` and 0 elsewhere.
pub calculator_sound :
    (e : Equation) (r : Result)
    → calculator e ≡ some r
    → Coded e r.code × ((r.code ≡ normol) → r.num ≡ exact e) × ((r.code ≢ normol) → r.num ≡ pos 0)
unfolding calculator
calculator_sound e r h = (ground arith, ground arith, ground arith)

small_product : (a b : ℕ) → a < 100 → b < 100 → a * b < 10000
small_product a b ha hb = grind arith

calculator_small-ne-none :
    (a b c : ℕ) → a < 100 → b < 100 → calculator (record { x = pos a; y = pos b; op = c }) ≢ none
unfolding calculator ◌+ℤ◌ ◌-ℤ◌ ◌*ℤ◌ quot
calculator_small-ne-none a b c ha hb = ground (arith, small_product a b)

operators-is_operator : (n : ℕ) → n < 5 → is_operator (get_or operators n 0) ≡ true
operators-is_operator zero h = refl
operators-is_operator (suc zero) h = refl
operators-is_operator (suc (suc zero)) h = refl
operators-is_operator (suc (suc (suc zero))) h = refl
operators-is_operator (suc (suc (suc (suc zero)))) h = refl
operators-is_operator (suc (suc (suc (suc (suc n))))) h = absurd (omega arith)

get_op-is_operator : (n : ℕ) → is_operator (get_op n) ≡ true
unfolding get_op
get_op-is_operator n = operators-is_operator (n % 5) (omega arith)

-- Whatever the three draws and the time, a generated equation has an answer, and its code is
-- `NORMOL`, `DEVZERO` or `MODZERO`: the generator makes no wrong operator and no overflow.
pub equation_of_draws_answered :
    (time r1 r2 r3 : ℕ)
    → (r : Result) × (calculator (equation_of_draws time r1 r2 r3) ≡ some r)
      × (r.code ≢ opwrong)
      × (r.code ≢ unknown)
unfolding equation_of_draws
equation_of_draws_answered time r1 r2 r3 = elim (Option-cases (calculator e)) [
  | inl no_answer ↦ absurd (calculator_small-ne-none a b c (omega arith) (omega arith) no_answer)
  | inr (r, answer) ↦
      let sound = (calculator_sound e r answer).0 in
      let op = get_op-is_operator (randnum r3 time 100) in (r, answer, ground arith, ground arith)
]
  where
    a : ℕ
    a = randnum r1 time 100

    b : ℕ
    b = randnum r2 time 100

    c : ℕ
    c = get_op (randnum r3 time 100)

    e : Equation
    e = record { x = pos a; y = pos b; op = c }
