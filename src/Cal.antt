-- ===== src/Cal.antt =====
-- IO/reactor/cal.hpp: the equations, the results and the calculator behind the network servers.
-- An `int` is a ℤ; an `int` operation whose value does not fit is undefined in C++, here `none`.
pub mod Division
pub mod Outcome
mod Tests
use Prim.Native.Nat.{bit_xor}
use linux_learning_machine_c.Base.{
  ℕ, ◌%◌, ◌+◌, ◌≡◌, Option, none, some, List, [], ◌∷◌, ◌==◌, if◌then◌else◌, get_or,
}
use linux_learning_machine_c.Base.Int.{ℤ, pos, ◌+ℤ◌, ◌-ℤ◌, ◌*ℤ◌, quot, rem, fits, is_zero}

-- `enum EXITCODE`, in the order of its values.
pub data ExitCode : Type 0 where
  normol devzero modzero opwrong unknown : ExitCode

-- The operator is a `char`, kept as its byte.
pub record Equation : Type 0 where
  pub x : ℤ
  pub y : ℤ
  pub op : ℕ

pub record Result : Type 0 where
  pub num : ℤ
  pub code : ExitCode

-- `equation::_v`
abbrev pub operators : List ℕ
operators = b'+' ∷ b'-' ∷ b'*' ∷ b'/' ∷ b'%' ∷ []

-- `getOP`; the index is in range, so the default is never read.
pub get_op : ℕ → ℕ
get_op n = get_or operators (n % 5) 0

-- `randnum`, with what `rand()` and `time(nullptr)` return, both non-negative, as arguments.
pub randnum : ℕ → ℕ → ℕ → ℕ
randnum rand time range = bit_xor (bit_xor rand time) 0x20230721 % range

-- The constructor `equation(const calserver&)` makes three draws.
pub equation_of_draws : ℕ → ℕ → ℕ → ℕ → Equation
unfolding get_op randnum
equation_of_draws time r1 r2 r3 = record {
  x = pos (randnum r1 time 100);
  y = pos (randnum r2 time 100);
  op = get_op (randnum r3 time 100);
}

abbrev pub normal : ℤ → Result
normal n = record { num = n; code = normol }

abbrev pub failed : ExitCode → Result
failed c = record { num = pos 0; code = c }

abbrev pub checked : ℤ → Option Result
checked n = if fits n then some (normal n) else none

-- `e._x / e._y` behind its test.
abbrev pub divide : ℤ → ℤ → Option Result
divide x y = if is_zero y then some (failed devzero) else checked (quot x y)

-- `e._x % e._y` behind its test; undefined where the quotient does not fit.
abbrev pub modulo : ℤ → ℤ → Option Result
modulo x y =
    if is_zero y
    then some (failed modzero)
    else if fits (quot x y)
    then some (normal (rem x y))
    else none

-- `calserver::operator()`. The return behind the switch is not reachable.
unfoldable pub calculator : Equation → Option Result
calculator e =
    if e.op == b'+'
    then checked (e.x +ℤ e.y)
    else if e.op == b'-'
    then checked (e.x -ℤ e.y)
    else if e.op == b'*'
    then checked (e.x *ℤ e.y)
    else if e.op == b'/'
    then divide e.x e.y
    else if e.op == b'%'
    then modulo e.x e.y
    else some (failed opwrong)
