-- ===== src/Shell/Words/Args.antt =====
-- pipe_t/MyShell/myshell.c: one call of `strtok` finds one word.
use linux_learning_machine_c.Base.{
  ℕ, zero, suc, ◌+◌, ◌≡◌, ◌≢◌, ◌⊎◌, inl, inr, refl, sym, ap, ◌∙◌, ◌==◌, false, none, some, [], ◌∷◌,
  ◌++◌, append_assoc, length, length-append, take, set, set-length, Bytes, Lacks, arith, All-drop,
  length-drop, length-take, snoc-append,
}
use linux_learning_machine_c.Shell.{text_at}
use linux_learning_machine_c.Shell.Strtok.{strspn, strcspn, strtok_next}
use linux_learning_machine_c.Shell.Words.{
  words, strspn-le, strcspn-le, words_from, words_word, words_spaces, after_spaces, after_word,
  tokens_at, text_between, Found, buffer, first, behind, word_start, word_end, word_found, before,
  before-behind, length-before, strtok_blank, strtok_last, strtok_more, flush,
}

All-take : (n : ℕ) (s : Bytes) → Lacks 0 s → Lacks 0 (take n s)
All-take zero s h = tt
All-take (suc n) [] h = tt
All-take (suc n) (c ∷ s) h = (h.0, All-take n s h.1)

module _ (pre t rest : Bytes) (h : Lacks 0 t) {c : ℕ} {s : Bytes} (e : first pre t rest h ≡ c ∷ s)
    (space : (c == 32) ≡ false) (nonzero : (c == 0) ≡ false) where
  first-Lacks : Lacks 0 (first pre t rest h)
  first-Lacks = All-drop (λ x. x ≢ 0) (strspn t) t h

  words_split : words t ≡ words_from (word_found pre t rest h) (behind pre t rest h)
  words_split = sym (words_spaces t) ∙ words_word [] (first pre t rest h) first-Lacks

  -- A word that has been found is not empty.
  flush_found : flush (word_found pre t rest h) ≡ word_found pre t rest h ∷ []
  flush_found = rw (e, space, nonzero)

  buffer_split :
      buffer pre t rest h ≡ (pre ++ before pre t rest h) ++ (behind pre t rest h ++ 0 ∷ rest)
  buffer_split = sym (
      append_assoc pre (before pre t rest h) (behind pre t rest h ++ 0 ∷ rest)
      ∙ ap (λ x. pre ++ x)
          (sym (append_assoc (before pre t rest h) (behind pre t rest h) (0 ∷ rest))
            ∙ ap (λ x. x ++ 0 ∷ rest) (before-behind pre t rest h)))

  reads :
      (y : Bytes)
      → text_at ((pre ++ before pre t rest h) ++ 0 ∷ y) (word_start pre t rest h)
        ≡ word_found pre t rest h
  reads y =
      let len : strspn t ≡ length (take (strspn t) t) =
        omega (arith, length-take (strspn t) t, strspn-le t) in
      ap (λ n. text_at ((pre ++ before pre t rest h) ++ 0 ∷ y) (length pre + n)) len
      ∙ text_between pre (take (strspn t) t) (word_found pre t rest h) y
          (All-take (strcspn (first pre t rest h)) (first pre t rest h) first-Lacks)

  -- The end of the word is overwritten.
  ended :
      (z : Bytes)
      → (pre ++ (before pre t rest h ++ 0 ∷ [])) ++ z ≡ (pre ++ before pre t rest h) ++ 0 ∷ z
  ended z =
      ap (λ x. x ++ z) (sym (append_assoc pre (before pre t rest h) (0 ∷ [])))
      ∙ snoc-append (pre ++ before pre t rest h) 0 z

  cut_word :
      (r : Bytes)
      → behind pre t rest h ≡ 32 ∷ r
      → set (buffer pre t rest h) (word_end pre t rest h) 0
        ≡ (pre ++ (before pre t rest h ++ 0 ∷ [])) ++ (r ++ 0 ∷ rest)
  cut_word r more =
      ap (λ n. set (buffer pre t rest h) n 0) (sym (length-before pre t rest h))
      ∙ ap (λ x. set x (length (pre ++ before pre t rest h)) 0)
          (buffer_split ∙ ap (λ x. (pre ++ before pre t rest h) ++ (x ++ 0 ∷ rest)) more)
      ∙ set-length (pre ++ before pre t rest h) 32 (r ++ 0 ∷ rest) 0
      ∙ sym (ended (r ++ 0 ∷ rest))

  last_buffer :
      behind pre t rest h ≡ [] → buffer pre t rest h ≡ (pre ++ before pre t rest h) ++ 0 ∷ rest
  last_buffer last = buffer_split ∙ ap (λ x. (pre ++ before pre t rest h) ++ (x ++ 0 ∷ rest)) last

  found_last : behind pre t rest h ≡ [] → Found pre t rest
  found_last last = record {
    start = word_start pre t rest h;
    word = word_found pre t rest h;
    mid = before pre t rest h;
    later = [];
    splits = words_split ∙ ap (words_from (word_found pre t rest h)) last ∙ flush_found;
    shorter = omega (arith, ap length e, length-drop (strspn t) t);
    size = omega (
      arith,
      length-before pre t rest h,
      length-append pre (before pre t rest h),
      ap length last,
      length-drop (strspn t) t,
      length-drop (strcspn (first pre t rest h)) (first pre t rest h),
      strspn-le t,
      strcspn-le (first pre t rest h),
    );
    no_zero = tt;
    step = strtok_last pre t rest h e nonzero last ∙ (λ i. (
      some (word_start pre t rest h),
      record { buffer = last_buffer last i; saved = sym (length-before pre t rest h) i },
    ));
    text = λ x zero_next. let (y, zero_first) = zero_next refl in rw zero_first (reads y);
  }

  later-Lacks : (r : Bytes) → behind pre t rest h ≡ 32 ∷ r → Lacks 0 r
  later-Lacks r more =
      let all =
        All-drop (λ x. x ≢ 0) (strcspn (first pre t rest h)) (first pre t rest h) first-Lacks in
      let cut : Lacks 0 (32 ∷ r) = rw more at all in cut.1

  later_saved : suc (word_end pre t rest h) ≡ length (pre ++ (before pre t rest h ++ 0 ∷ []))
  later_saved = omega (
    arith,
    length-before pre t rest h,
    length-append pre (before pre t rest h ++ 0 ∷ []),
    length-append pre (before pre t rest h),
    length-append (before pre t rest h) (0 ∷ []),
  )

  found_more : (r : Bytes) → behind pre t rest h ≡ 32 ∷ r → Found pre t rest
  found_more r more = record {
    start = word_start pre t rest h;
    word = word_found pre t rest h;
    mid = before pre t rest h ++ 0 ∷ [];
    later = r;
    splits =
        words_split
        ∙ ap (words_from (word_found pre t rest h)) more
        ∙ ap (λ x. x ++ words r) flush_found;
    shorter = omega (
      arith,
      ap length more,
      length-drop (strspn t) t,
      length-drop (strcspn (first pre t rest h)) (first pre t rest h),
    );
    size = omega (
      arith,
      later_saved,
      length-append pre (before pre t rest h ++ 0 ∷ []),
      ap length more,
      length-drop (strspn t) t,
      length-drop (strcspn (first pre t rest h)) (first pre t rest h),
      strspn-le t,
      strcspn-le (first pre t rest h),
    );
    no_zero = later-Lacks r more;
    step = strtok_more pre t rest h e nonzero r more ∙ (λ i. (
      some (word_start pre t rest h),
      record { buffer = cut_word r more i; saved = later_saved i },
    ));
    text = λ x any. rw (ended x) (reads x);
  }

-- A call of `strtok` at a text without a zero byte.
pub next_word :
    (pre t rest : Bytes)
    → Lacks 0 t
    → ((words t ≡ [])
        × ((n : ℕ) × (strtok_next (tokens_at pre t rest)
              ≡ (none, record { buffer = pre ++ (t ++ 0 ∷ rest); saved = n }))))
      ⊎ Found pre t rest
next_word pre t rest h = elim (after_spaces t h) [
  | inl blank ↦ inl (
    sym (words_spaces t) ∙ ap words blank,
    (word_start pre t rest h, strtok_blank pre t rest h blank),
  )
  | inr (c, s, e, space, nonzero) ↦
      inr (elim (after_word (first pre t rest h) (All-drop (λ x. x ≢ 0) (strspn t) t h)) [
        | inl last ↦ found_last pre t rest h e space nonzero last
        | inr (r, more) ↦ found_more pre t rest h e space nonzero r more
      ])
]
