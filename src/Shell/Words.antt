-- ===== src/Shell/Words.antt =====
-- pipe_t/MyShell/myshell.c: the calls of `strtok` in `Command_Analysis` find the words of a text.
pub mod Args
pub mod Loop
pub mod Split
use linux_learning_machine_c.Base.{
  ℕ, zero, suc, ◌+◌, ◌-◌, ◌≤◌, ◌<◌, ◌≡◌, ◌≢◌, ◌⊎◌, inl, inr, refl, sym, ap, ◌∙◌, ◌==◌, ltb, Bool,
  true, false, if◌then◌else◌, Option, none, some, List, [], ◌∷◌, ◌++◌, map, append_assoc,
  append-nil, length, length-append, take, drop, set, set-length, get_or, get_or-length, All, Bytes,
  Lacks, c_str, arith, Bool-cases, lt→ltb, drop-drop, drop_tail, c_str_zero, take-append-drop,
  All-drop, length-drop, length-take, ◌||◌, snoc-append, drop-append, drop-length,
}
use linux_learning_machine_c.Shell.{Arg, at, text_at, arg_text, ag_num, other_args}
use linux_learning_machine_c.Shell.Strtok.{Tokens, strspn, strcspn, strtok_next}

-- A word that has ended, if it is not empty.
abbrev flush : Bytes → List Bytes
flush [] = []
flush (c ∷ w) = (c ∷ w) ∷ []

-- The words of `w` followed by a text, where `w` is a part of a word.
abbrev words_from : Bytes → Bytes → List Bytes
words_from w [] = flush w
words_from w (c ∷ s) = if c == 32 then flush w ++ words_from [] s else words_from (w ++ c ∷ []) s

-- The longest runs of bytes that are no spaces.
abbrev pub words : Bytes → List Bytes
words s = words_from [] s

pub words_spaces : (t : Bytes) → words (drop (strspn t) t) ≡ words t
words_spaces [] = refl
words_spaces (c ∷ t) = elim (Bool-cases (c == 32)) [
  | inl e ↦ rw e (words_spaces t)
  | inr e ↦ rw e (rw e)
]

pub words_word :
    (w t : Bytes)
    → Lacks 0 t
    → words_from w t ≡ words_from (w ++ take (strcspn t) t) (drop (strcspn t) t)
words_word w [] h = rw (append-nil w)
words_word w (c ∷ t) h = elim (Bool-cases (c == 32)) [
  | inl e ↦ rw (e, append-nil w) (rw e)
  | inr e ↦
      let other : (c == 0) ≡ false = ground arith in
      rw (e, other) (words_word (w ++ c ∷ []) t h.1 ∙ rw (snoc-append w c (take (strcspn t) t)))
]

-- What follows the spaces is no space, and what follows a word is a space.
pub after_spaces :
    (t : Bytes)
    → Lacks 0 t
    → (drop (strspn t) t ≡ [])
      ⊎ ((c : ℕ) × (s : Bytes) × (drop (strspn t) t ≡ c ∷ s)
          × ((c == 32) ≡ false)
          × ((c == 0) ≡ false))
after_spaces [] h = inl refl
after_spaces (c ∷ t) h = elim (Bool-cases (c == 32)) [
  | inl e ↦ rw e (after_spaces t h.1)
  | inr e ↦ rw e (inr (c, t, refl, e, ground arith))
]

pub after_word :
    (t : Bytes)
    → Lacks 0 t
    → (drop (strcspn t) t ≡ []) ⊎ ((s : Bytes) × (drop (strcspn t) t ≡ 32 ∷ s))
after_word [] h = inl refl
after_word (c ∷ t) h =
    let other : (c == 0) ≡ false = ground arith in
    elim (Bool-cases (c == 32)) [
      | inl e ↦ rw e (inr (t, ground arith))
      | inr e ↦ rw (e, other) (after_word t h.1)
    ]

strspn_text : (t rest : Bytes) → strspn (t ++ 0 ∷ rest) ≡ strspn t
strspn_text [] rest = refl
strspn_text (c ∷ t) rest = ground (arith, strspn_text t rest)

strcspn_text : (t rest : Bytes) → strcspn (t ++ 0 ∷ rest) ≡ strcspn t
strcspn_text [] rest = refl
strcspn_text (c ∷ t) rest = ground (arith, strcspn_text t rest)

pub strspn-le : (t : Bytes) → strspn t ≤ length t
strspn-le [] = omega arith
strspn-le (c ∷ t) = ground (arith, strspn-le t)

pub strcspn-le : (t : Bytes) → strcspn t ≤ length t
strcspn-le [] = omega arith
strcspn-le (c ∷ t) = ground (arith, strcspn-le t)

pub get_or-drop : (a : ℕ) (s u : Bytes) {c : ℕ} → drop a s ≡ c ∷ u → get_or s a 0 ≡ c
get_or-drop zero [] u h = cc
get_or-drop zero (x ∷ s) u h = cc
get_or-drop (suc a) [] u h = cc
get_or-drop (suc a) (x ∷ s) u h = get_or-drop a s u h

abbrev pub tokens_at : Bytes → Bytes → Bytes → Tokens
tokens_at pre t rest = record { buffer = pre ++ (t ++ 0 ∷ rest); saved = length pre }

pub text_between :
    (pre sp w y : Bytes)
    → Lacks 0 w
    → text_at ((pre ++ (sp ++ w)) ++ 0 ∷ y) (length pre + length sp) ≡ w
text_between pre sp w y h =
    let regroup : (pre ++ (sp ++ w)) ++ 0 ∷ y ≡ (pre ++ sp) ++ (w ++ 0 ∷ y) =
      ap (λ x. x ++ 0 ∷ y) (sym (append_assoc pre sp w)) ∙ append_assoc (pre ++ sp) w (0 ∷ y) in
    rw (regroup, sym (length-append pre sp), drop-length (pre ++ sp) (w ++ 0 ∷ y))
      (c_str_zero w y h)

-- A call of `strtok` that finds a word: how it cuts the text, the state behind it, and that the word
-- can be read from then on, whatever is written behind it.
pub record Found (pre t rest : Bytes) : Type 0 where
  pub start : ℕ
  pub word : Bytes
  pub mid : Bytes
  pub later : Bytes
  pub splits : words t ≡ word ∷ words later
  pub shorter : length later < length t
  pub size : length mid + length later ≡ length t
  pub no_zero : Lacks 0 later
  pub step : strtok_next (tokens_at pre t rest) ≡ (some start, tokens_at (pre ++ mid) later rest)
  pub text :
      (x : Bytes)
      → (later ≡ [] → (y : Bytes) × (x ≡ 0 ∷ y))
      → text_at ((pre ++ mid) ++ x) start ≡ word

module _ (pre t rest : Bytes) (h : Lacks 0 t) where
  abbrev pub buffer : Bytes
  buffer = pre ++ (t ++ 0 ∷ rest)

  abbrev pub first : Bytes
  first = drop (strspn t) t

  abbrev pub behind : Bytes
  behind = drop (strcspn first) first

  abbrev pub word_start : ℕ
  word_start = length pre + strspn t

  abbrev pub word_end : ℕ
  word_end = word_start + strcspn first

  at_saved : drop (length pre) buffer ≡ t ++ 0 ∷ rest
  at_saved = drop-length pre (t ++ 0 ∷ rest)

  at_start : drop word_start buffer ≡ first ++ 0 ∷ rest
  at_start =
      drop-drop (length pre) (strspn t) buffer
      ∙ ap (drop (strspn t)) at_saved
      ∙ drop-append (strspn t) t (0 ∷ rest) (strspn-le t)

  at_end : drop word_end buffer ≡ behind ++ 0 ∷ rest
  at_end =
      drop-drop word_start (strcspn first) buffer
      ∙ ap (drop (strcspn first)) at_start
      ∙ drop-append (strcspn first) first (0 ∷ rest) (strcspn-le first)

  abbrev pub word_found : Bytes
  word_found = take (strcspn first) first

  abbrev pub before : Bytes
  before = take (strspn t) t ++ word_found

  pub before-behind : before ++ behind ≡ t
  before-behind =
      append_assoc (take (strspn t) t) word_found behind
      ∙ ap (λ x. take (strspn t) t ++ x) (take-append-drop (strcspn first) first)
      ∙ take-append-drop (strspn t) t

  pub length-before : length (pre ++ before) ≡ word_end
  length-before = omega (
    arith,
    length-append pre before,
    length-append (take (strspn t) t) word_found,
    length-take (strspn t) t,
    length-take (strcspn first) first,
    strspn-le t,
    strcspn-le first,
  )

  pub strtok_blank :
      first ≡ []
      → strtok_next (tokens_at pre t rest) ≡ (none, record { buffer = buffer; saved = word_start })
  unfolding strtok_next
  strtok_blank e =
      let none_here : get_or buffer word_start 0 ≡ 0 =
        get_or-drop word_start buffer rest (at_start ∙ ap (λ x. x ++ 0 ∷ rest) e) in
      rw (at_saved, strspn_text t rest, none_here)

  module _ {c : ℕ} {s : Bytes} (e : first ≡ c ∷ s) (nonzero : (c == 0) ≡ false) where
    word_here : (get_or buffer word_start 0 == 0) ≡ false
    word_here =
        rw (get_or-drop word_start buffer (s ++ 0 ∷ rest) (at_start ∙ ap (λ x. x ++ 0 ∷ rest) e))
          nonzero

    pub strtok_last :
        behind ≡ []
        → strtok_next (tokens_at pre t rest)
          ≡ (some word_start, record { buffer = buffer; saved = word_end })
    unfolding strtok_next
    strtok_last last =
        let stop : get_or buffer word_end 0 ≡ 0 =
          get_or-drop word_end buffer rest (at_end ∙ ap (λ x. x ++ 0 ∷ rest) last) in
        rw (at_saved, strspn_text t rest, at_start, strcspn_text first rest, word_here, stop)

    pub strtok_more :
        (r : Bytes)
        → behind ≡ 32 ∷ r
        → strtok_next (tokens_at pre t rest)
          ≡ (some word_start, record { buffer = set buffer word_end 0; saved = suc word_end })
    unfolding strtok_next
    strtok_more r more =
        let stop : get_or buffer word_end 0 ≡ 32 =
          get_or-drop word_end buffer (r ++ 0 ∷ rest) (at_end ∙ ap (λ x. x ++ 0 ∷ rest) more) in
        rw (at_saved, strspn_text t rest, at_start, strcspn_text first rest, word_here, stop)
