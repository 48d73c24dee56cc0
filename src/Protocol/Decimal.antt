-- ===== src/Protocol/Decimal.antt =====
-- `std::to_string(int)` and `std::stoi`, as IO/reactor/protocol.hpp uses them on its fields.
use linux_learning_machine_c.Base.{
  ℕ, zero, suc, ◌+◌, ◌-◌, ◌*◌, ◌/◌, ◌%◌, ◌≤◌, ◌<◌, ◌≡◌, refl, ap, ◌∙◌, ◌≢◌, inl, inr, Bool, true,
  false, ◌&&◌, ◌||◌, Option, none, some, [], ◌∷◌, ◌++◌, append_assoc, ◌==◌, ltb, leb, if◌then◌else◌,
  Bytes, arith, Bool-cases, All, Lacks, All-append,
}
use mathlib.Core.List.{concat-ne-nil}
use linux_learning_machine_c.Base.Int.{ℤ, pos, negsuc, neg, fits}

-- The decimal digits of `n`; one round for each digit, so `n + 1` rounds are enough.
unfoldable pub digits : ℕ → ℕ → Bytes
digits zero n = []
digits (suc f) n =
    let front = digits f (n / 10) in
    if ltb n 10 then (b'0' + n) ∷ [] else front ++ (b'0' + n % 10) ∷ []

unfoldable pub to_string : ℤ → Bytes
to_string (pos n) = digits (suc n) n
to_string (negsuc n) = b'-' ∷ digits (suc (suc n)) (suc n)

abbrev pub is_digit : ℕ → Bool
is_digit c = leb b'0' c && leb c b'9'

-- `isspace`
abbrev pub is_space : ℕ → Bool
is_space c = (leb 9 c && leb c 13) || c == b' '

-- The number that the digits at the front spell behind `n`.
scan : Bytes → ℕ → ℕ
scan [] n = n
scan (c ∷ s) n = if is_digit c then scan s (n * 10 + (c - b'0')) else n

-- `stoi` throws `out_of_range` on a number that is no `int`.
abbrev in_range : ℤ → Option ℤ
in_range z = if fits z then some z else none

-- It throws `invalid_argument` where no digit stands.
unsigned : (ℕ → ℤ) → Bytes → Option ℤ
unfolding scan
unsigned sign [] = none
unsigned sign (c ∷ s) = if is_digit c then in_range (sign (scan (c ∷ s) 0)) else none

signed : Bytes → Option ℤ
unfolding unsigned
signed [] = none
signed (c ∷ s) =
    if c == b'-' then unsigned neg s else if c == b'+' then unsigned pos s else unsigned pos (c ∷ s)

-- `std::stoi(s)`: leading blanks, a sign and digits; what follows is ignored. `none` is a throw.
unfoldable pub stoi : Bytes → Option ℤ
unfolding signed
stoi [] = none
stoi (c ∷ s) = if is_space c then stoi s else signed (c ∷ s)

abbrev pub IsDigit : ℕ → Type 0
IsDigit c = (b'0' ≤ c) × (c ≤ b'9')

digits-IsDigit : (f n : ℕ) → All IsDigit (digits f n)
unfolding digits
digits-IsDigit zero n = tt
digits-IsDigit (suc f) n = elim (Bool-cases (ltb n 10)) [
  | inl e ↦ rw e (ground arith, tt)
  | inr e ↦
      rw e (All-append IsDigit (digits f (n / 10)) _ (digits-IsDigit f (n / 10)) (omega arith, tt))
]

scan-digits : (f n : ℕ) (s : Bytes) → n < f → scan (digits f n ++ s) 0 ≡ scan s n
unfolding digits scan
scan-digits zero n s h = absurd (omega arith)
scan-digits (suc f) n s h = ground (
  arith,
  append_assoc (digits f (n / 10)) ((b'0' + n % 10) ∷ []) s,
  scan-digits f (n / 10) ((b'0' + n % 10) ∷ s),
)

digits-ne-nil : (f n : ℕ) → n < f → digits f n ≢ []
unfolding digits
digits-ne-nil zero n h = absurd (omega arith)
digits-ne-nil (suc f) n h = ground (arith, concat-ne-nil (b'0' + n % 10) (digits f (n / 10)))

digits-cons : (f n : ℕ) → n < f → (c : ℕ) × (r : Bytes) × (digits f n ≡ c ∷ r) × IsDigit c
digits-cons f n h = first (digits f n) refl (digits-IsDigit f n)
  where
    nonempty : digits f n ≢ []
    nonempty = digits-ne-nil f n h

    first :
        (ds : Bytes)
        → digits f n ≡ ds
        → All IsDigit ds
        → (c : ℕ) × (r : Bytes) × (digits f n ≡ c ∷ r) × IsDigit c
    first [] e d = absurd (nonempty e)
    first (c ∷ r) e d = (c, r, e, d.0)

-- What follows a number does not go on with it.
abbrev pub Stops : Bytes → Type 0
Stops [] = Unit
Stops (c ∷ s) = is_digit c ≡ false

scan-Stops : (s : Bytes) (n : ℕ) → Stops s → scan s n ≡ n
unfolding scan
scan-Stops [] n h = refl
scan-Stops (c ∷ s) n h = rw h

unsigned-digits :
    (sign : ℕ → ℤ) (f n : ℕ) (s : Bytes)
    → n < f
    → Stops s
    → unsigned sign (digits f n ++ s) ≡ in_range (sign n)
unfolding unsigned
unsigned-digits sign f n s h stop =
    let (c, r, e, d) = digits-cons f n h in
    rw (e, unsigned)
      (ground (arith, ap (λ ds. scan (ds ++ s) 0) e, scan-digits f n s h, scan-Stops s n stop))

signed-digits :
    (f n : ℕ) (s : Bytes) → n < f → stoi (digits f n ++ s) ≡ unsigned pos (digits f n ++ s)
unfolding stoi signed
signed-digits f n s h = let (c, r, e, d) = digits-cons f n h in rw (e) (ground arith)

-- `std::stoi` reads back what `std::to_string` prints of an `int`, whatever stands behind it, if that
-- does not begin with a digit.
pub stoi-to_string :
    (z : ℤ) (s : Bytes) → fits z ≡ true → Stops s → stoi (to_string z ++ s) ≡ some z
unfolding stoi to_string
stoi-to_string (pos n) s fit stop =
    signed-digits (suc n) n s (omega arith)
    ∙ unsigned-digits pos (suc n) n s (omega arith) stop
    ∙ rw fit
stoi-to_string (negsuc n) s fit stop =
    unsigned-digits neg (suc (suc n)) (suc n) s (omega arith) stop ∙ ground arith

-- The characters of a printed number.
abbrev pub IsNumeral : ℕ → Type 0
IsNumeral c = (b'-' ≤ c) × (c ≤ b'9')

All-IsNumeral : (s : Bytes) → All IsDigit s → All IsNumeral s
All-IsNumeral [] h = tt
All-IsNumeral (c ∷ s) h = (omega arith, All-IsNumeral s h.1)

pub to_string-IsNumeral : (z : ℤ) → All IsNumeral (to_string z)
unfolding to_string
to_string-IsNumeral (pos n) = All-IsNumeral (digits (suc n) n) (digits-IsDigit (suc n) n)
to_string-IsNumeral (negsuc n) = (
  omega arith,
  All-IsNumeral (digits (suc (suc n)) (suc n)) (digits-IsDigit (suc (suc n)) (suc n)),
)

pub Lacks-of_IsNumeral : (b : ℕ) → b < b'-' → (s : Bytes) → All IsNumeral s → Lacks b s
Lacks-of_IsNumeral b small [] h = tt
Lacks-of_IsNumeral b small (c ∷ s) h = (omega arith, Lacks-of_IsNumeral b small s h.1)
