-- ===== src/Shell/Bars.antt =====
-- pipe_t/MyShell/myshell.c: a text cut at its bars, and the spaces in front of a text.
use linux_learning_machine_c.Base.{
  ℕ, suc, ◌+◌, ◌≤◌, ◌≡◌, refl, ap, ◌∙◌, ◌==◌, false, if◌then◌else◌, List, [], ◌∷◌, ◌++◌, map,
  length, take, drop, Bytes, arith, Bool-cases, inl, inr,
}
use linux_learning_machine_c.Shell.{is_space, spaces}

-- The text cut at its bars: what stands before the first, and what stands behind each.
abbrev pub split_bar : Bytes → Bytes × List Bytes
split_bar [] = ([], [])
split_bar (c ∷ s) =
    let (first, others) = split_bar s in
    if c == b'|' then ([], first ∷ others) else (c ∷ first, others)

abbrev pub trim_left : Bytes → Bytes
trim_left s = drop (spaces s) s

abbrev pub cut_char : ℕ → ℕ
cut_char c = if c == b'|' then 0 else c

-- Where the commands behind the bars start, if the text stands at `n`.
abbrev pub starts : ℕ → Bytes → List ℕ
starts n [] = []
starts n (c ∷ s) = if c == b'|' then (suc n + spaces s) ∷ starts (suc n) s else starts (suc n) s

pub spaces_text : (s rest : Bytes) → spaces (s ++ 0 ∷ rest) ≡ spaces s
spaces_text [] rest = refl
spaces_text (c ∷ s) rest = ground (arith, spaces_text s rest)

pub spaces-le : (s : Bytes) → spaces s ≤ length s
spaces-le [] = omega arith
spaces-le (c ∷ s) = ground (arith, spaces-le s)

-- A space is no bar.
pub map-cut_spaces :
    (s : Bytes) → map cut_char s ≡ take (spaces s) s ++ map cut_char (drop (spaces s) s)
map-cut_spaces [] = refl
map-cut_spaces (c ∷ s) = elim (Bool-cases (is_space c)) [
  | inl e ↦
      let other : (c == b'|') ≡ false = ground arith in
      rw (e, other) (ap (◌∷◌ c) (map-cut_spaces s))
  | inr e ↦ rw e
]

pub starts-spaces : (n : ℕ) (s : Bytes) → starts n s ≡ starts (n + spaces s) (drop (spaces s) s)
starts-spaces n [] = refl
starts-spaces n (c ∷ s) = elim (Bool-cases (is_space c)) [
  | inl e ↦
      let other : (c == b'|') ≡ false = ground arith in
      let later : suc n + spaces s ≡ n + suc (spaces s) = omega arith in
      rw (e, other) (starts-spaces (suc n) s ∙ rw later)
  | inr e ↦ rw e (let same : n + 0 ≡ n = omega arith in rw same)
]

pub split_bar-spaces : (s : Bytes) → (split_bar (drop (spaces s) s)).1 ≡ (split_bar s).1
split_bar-spaces [] = refl
split_bar-spaces (c ∷ s) = elim (Bool-cases (is_space c)) [
  | inl e ↦ let other : (c == b'|') ≡ false = ground arith in rw (e, other) (split_bar-spaces s)
  | inr e ↦ rw e
]
