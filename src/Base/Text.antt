-- ===== src/Base/Text.antt =====
-- `std::string` as a list of byte values, with the members of it that the source calls.
use Prim.Native.Nat.{ℕ, zero, suc}
use Prim.Native.Char.{code}
use Prim.Native.String.{String}
use mathlib.Core.Path.{◌≡◌, refl, ap}
use mathlib.Core.Logic.{◌≢◌}
use mathlib.Core.Bool.{Bool, true, false, ◌&&◌}
use mathlib.Core.List.{List, [], ◌∷◌, ◌++◌}
use native.Mathlib.Omega.{arith}
use mathlib.Core.Option.{Option, none, some}
use linux_learning_machine_c.Base.Tests.{◌==◌, if◌then◌else◌}
use linux_learning_machine_c.Base.Lists.{length, take, drop, All}

abbrev pub Bytes : Type 0
Bytes = List ℕ

-- The code points of a literal: its bytes, as every literal modelled is ASCII.
abbrev pub codes : String → Bytes
codes String.[] = []
codes (String.◌∷◌ c s) = code c ∷ codes s

-- `s` has `p` at its front.
abbrev pub is_prefix : Bytes → Bytes → Bool
is_prefix [] s = true
is_prefix (c ∷ p) [] = false
is_prefix (c ∷ p) (d ∷ s) = c == d && is_prefix p s

abbrev pub next_pos : Option ℕ → Option ℕ
next_pos none = none
next_pos (some i) = some (suc i)

-- `s.find(p)`: the first position of `p` in `s`; `none` is `npos`.
unfoldable pub find : Bytes → Bytes → Option ℕ
find p [] = if is_prefix p [] then some 0 else none
find p (c ∷ s) = if is_prefix p (c ∷ s) then some 0 else next_pos (find p s)

-- `s.substr(pos, n)` at `pos <= s.size()`.
abbrev pub substr : Bytes → ℕ → ℕ → Bytes
substr s pos n = take n (drop pos s)

-- `s.substr(pos)` at `pos <= s.size()`.
abbrev pub substr_from : Bytes → ℕ → Bytes
substr_from s pos = drop pos s

-- `s.back()`; on the empty string it is undefined.
abbrev pub back : Bytes → Option ℕ
back [] = none
back (c ∷ []) = some c
back (c ∷ d ∷ s) = back (d ∷ s)

-- A `char*` read as a C string ends at the first zero byte.
abbrev pub c_str : Bytes → Bytes
c_str [] = []
c_str (zero ∷ s) = []
c_str (suc c ∷ s) = suc c ∷ c_str s

-- Equality of byte strings.
abbrev pub same : Bytes → Bytes → Bool
same [] [] = true
same [] (d ∷ t) = false
same (c ∷ s) [] = false
same (c ∷ s) (d ∷ t) = if c == d then same s t else false

abbrev pub Lacks : ℕ → Bytes → Type 0
Lacks b = All (λ c. c ≢ b)

pub back_snoc : (s : Bytes) (c : ℕ) → back (s ++ c ∷ []) ≡ some c
back_snoc [] c = refl
back_snoc (x ∷ []) c = refl
back_snoc (x ∷ y ∷ s) c = back_snoc (y ∷ s) c

-- A text without zero bytes is the whole C string.
pub c_str-eq_self : (s : Bytes) → Lacks 0 s → c_str s ≡ s
c_str-eq_self [] h = refl
c_str-eq_self (zero ∷ s) h = absurd (h.0 refl)
c_str-eq_self (suc c ∷ s) h = ap (◌∷◌ (suc c)) (c_str-eq_self s h.1)

-- The first `b` is found behind a text that lacks it.
pub find_char :
    (b : ℕ) (m rest : Bytes) → Lacks b m → find (b ∷ []) (m ++ b ∷ rest) ≡ some (length m)
unfolding find
find_char b [] rest h = ground arith
find_char b (c ∷ m) rest h = ground (arith, find_char b m rest h.1)

pub back_append : (s : Bytes) (c : ℕ) (t : Bytes) → back (s ++ c ∷ t) ≡ back (c ∷ t)
back_append [] c t = refl
back_append (x ∷ []) c t = refl
back_append (x ∷ y ∷ s) c t = back_append (y ∷ s) c t

pub same_refl : (s : Bytes) → same s s ≡ true
same_refl [] = refl
same_refl (c ∷ s) = ground (arith, same_refl s)

pub same-eq : (s t : Bytes) → same s t ≡ true → s ≡ t
same-eq [] [] h = refl
same-eq [] (d ∷ t) h = cc
same-eq (c ∷ s) [] h = cc
same-eq (c ∷ s) (d ∷ t) h = ground (arith, same-eq s t)

-- A C string ends at the first zero byte.
pub c_str_zero : (s rest : Bytes) → Lacks 0 s → c_str (s ++ 0 ∷ rest) ≡ s
c_str_zero [] rest h = refl
c_str_zero (zero ∷ s) rest h = absurd (h.0 refl)
c_str_zero (suc c ∷ s) rest h = ap (◌∷◌ (suc c)) (c_str_zero s rest h.1)
