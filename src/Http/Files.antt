-- ===== src/Http/Files.antt =====
-- http_t: what `util::loadsource` keeps of a file, and what `parse` makes of a path.
use linux_learning_machine_c.Base.{
  ℕ, zero, suc, ◌≤◌, ◌<◌, ◌≡◌, refl, sym, ◌∙◌, ap, ◌==◌, true, if◌then◌else◌, Option, none, some,
  Option-cases, Bool-cases, inl, inr, [], ◌∷◌, ◌++◌, append-nil, append_assoc, Bytes, length, drop,
  Lacks, arith, back,
}
use linux_learning_machine_c.Http.Request.{default_path, rfind, is_slash, path_of, suffix_of}
use linux_learning_machine_c.Http.Answer.{newline, line_of, behind_line, load_lines, loadsource}

-- The bytes of a text that are no newline.
abbrev pub without_newlines : Bytes → Bytes
without_newlines [] = []
without_newlines (c ∷ s) = if c == newline then without_newlines s else c ∷ without_newlines s

without_newlines-line :
    (s : Bytes) → without_newlines s ≡ line_of s ++ without_newlines (behind_line s)
without_newlines-line [] = refl
without_newlines-line (c ∷ s) = ground (arith, without_newlines-line s)

behind_line-le : (s : Bytes) → length (behind_line s) ≤ length s
behind_line-le [] = omega arith
behind_line-le (c ∷ s) = ground (arith, behind_line-le s)

behind_line-lt : (c : ℕ) (s : Bytes) → length (behind_line (c ∷ s)) < length (c ∷ s)
behind_line-lt c s = ground (arith, behind_line-le s)

load_lines-without_newlines :
    (fuel : ℕ) (content out : Bytes)
    → length content < fuel
    → load_lines fuel content out ≡ out ++ without_newlines content
unfolding load_lines
load_lines-without_newlines zero content out h = ground arith
load_lines-without_newlines (suc fuel) [] out h = sym (append-nil out)
load_lines-without_newlines (suc fuel) (c ∷ s) out h =
    load_lines-without_newlines fuel (behind_line (c ∷ s)) (out ++ line_of (c ∷ s))
      (omega (arith, behind_line-lt c s))
    ∙ append_assoc out (line_of (c ∷ s)) (without_newlines (behind_line (c ∷ s)))
    ∙ ap (λ t. out ++ t) (sym (without_newlines-line (c ∷ s)))

-- `loadsource` puts out a file without its newline bytes, whatever the file is: a picture as well.
pub loadsource-without_newlines :
    (files : Bytes → Option Bytes) (source out content : Bytes)
    → files source ≡ some content
    → loadsource files source out ≡ (true, out ++ without_newlines content)
unfolding loadsource
loadsource-without_newlines files source out content e =
    rw (e, loadsource)
      (ap (λ t. (true, t))
        (load_lines-without_newlines (suc (length content)) content out (omega arith)))

rfind-none : (c : ℕ) (s : Bytes) → rfind c s ≡ none → Lacks c s
unfolding rfind
rfind-none c [] h = tt
rfind-none c (d ∷ s) h = elim (Option-cases (rfind c s)) [
  | inl e ↦ (ground (arith, e), rfind-none c s e)
  | inr (i, e) ↦ ground (arith, e)
]

-- The last `c` of a text: nothing behind it is a `c`.
rfind-some :
    (c : ℕ) (s : Bytes) (i : ℕ) → rfind c s ≡ some i → (r : Bytes) × (drop i s ≡ c ∷ r) × Lacks c r
unfolding rfind
rfind-some c [] i h = ground arith
rfind-some c (d ∷ s) i h = elim (Option-cases (rfind c s)) [
  | inl e ↦ (s, ground (arith, e), rfind-none c s e)
  | inr (j, e) ↦ let (r, f, l) = rfind-some c s j e in (r, ground (arith, e, f), l)
]

path_of-point : (url : Bytes) → Lacks b'.' (path_of url) → ⊥
unfolding path_of
path_of-point url h = elim (Bool-cases (is_slash (back (default_path ++ url)))) [
  | inl e ↦ (rw (e, path_of) at h).0 refl
  | inr e ↦ (rw (e, path_of) at h).0 refl
]

-- The suffix of a path begins with its last point: as each path begins with one, the branch of `parse`
-- for a path without any, with its suffix ".html", is never taken.
pub suffix_of-path_of :
    (url : Bytes) → (r : Bytes) × (suffix_of (path_of url) ≡ b'.' ∷ r) × Lacks b'.' r
unfolding suffix_of path_of
suffix_of-path_of url = elim (Option-cases (rfind b'.' (path_of url))) [
  | inl e ↦ absurd (path_of-point url (rfind-none b'.' (path_of url) e))
  | inr (i, e) ↦ let (r, f, l) = rfind-some b'.' (path_of url) i e in (r, rw (e, suffix_of) f, l)
]
