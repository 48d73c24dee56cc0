-- ===== src/Shell/Words/Split.antt =====
-- pipe_t/MyShell/myshell.c: `Command_Analysis` puts the words of the text into `myargv`.
use linux_learning_machine_c.Base.{
  ℕ, suc, ◌+◌, ◌≤◌, ◌<◌, ◌≡◌, ◌≢◌, inl, inr, refl, sym, ap, ◌∙◌, if◌then◌else◌, Option, none, some,
  ◌>>=◌, List, [], ◌∷◌, ◌++◌, map, length, length-append, Bytes, Lacks, arith, codes, same,
  Bool-cases,
}
use linux_learning_machine_c.Shell.{
  Shell, Arg, text_at, arg_text, ag_num, first_args, other_args, split_words,
}
use linux_learning_machine_c.Shell.Strtok.{strtok_first}
use linux_learning_machine_c.Shell.Words.{words, tokens_at, Found}
use linux_learning_machine_c.Shell.Words.Args.{next_word}
use linux_learning_machine_c.Shell.Words.Loop.{
  collect, collect_too_many, regrouped, empty_of_length,
}

-- What the first word becomes.
abbrev pub expand : Bytes → List Bytes
expand w =
    if same w (codes "ll")
    then codes "ls" ∷ codes "-l" ∷ codes "--color=auto" ∷ []
    else if same w (codes "ls")
    then w ∷ codes "--color=auto" ∷ []
    else w ∷ []

-- The words that a process is started with.
abbrev pub arguments : List Bytes → List Bytes
arguments [] = []
arguments (w ∷ ws) = expand w ++ ws

first_args-expand :
    (s s' : Bytes) (p : ℕ) (w : Bytes)
    → text_at s p ≡ w
    → text_at s' p ≡ w
    → map (arg_text s') (first_args s p) ≡ expand w
first_args-expand s s' p w e e' = elim (Bool-cases (same w (codes "ll"))) [
  | inl ll ↦ rw (e, ll)
  | inr other ↦ elim (Bool-cases (same w (codes "ls"))) [
    | inl ls ↦ rw (e, other, ls, e')
    | inr any ↦ rw (e, other, any, e')
  ]
]

map-append_args :
    (s : Bytes) (xs ys : List Arg)
    → map (arg_text s) (xs ++ ys) ≡ map (arg_text s) xs ++ map (arg_text s) ys
map-append_args s [] ys = refl
map-append_args s (x ∷ xs) ys = ap (◌∷◌ (arg_text s x)) (map-append_args s xs ys)

length-first_args :
    (s : Bytes) (p : ℕ) (w : Bytes) → text_at s p ≡ w → length (first_args s p) ≡ length (expand w)
length-first_args s p w e = elim (Bool-cases (same w (codes "ll"))) [
  | inl ll ↦ rw (e, ll)
  | inr other ↦ elim (Bool-cases (same w (codes "ls"))) [
    | inl ls ↦ rw (e, other, ls)
    | inr any ↦ rw (e, other, any)
  ]
]

-- What `split_words` leaves for the text between `pre` and `rest`.
pub record HasWords (sh : Shell) (pre t rest : Bytes) : Type 0 where
  pub kept : Bytes
  pub args : List Arg
  pub result :
      split_words (length pre) sh
      ≡ some (record sh { command = pre ++ (kept ++ 0 ∷ rest); myargv = args })
  pub size : length kept ≡ length t
  pub reads : map (arg_text (pre ++ (kept ++ 0 ∷ rest))) args ≡ arguments (words t)

abbrev filled : Shell → Option (Bytes × List Arg) → Option Shell
filled sh o = o >>= λ (s, args). some (record sh { command = s; myargv = args })

module _ (sh : Shell) (pre t rest : Bytes) (e : sh.command ≡ pre ++ (t ++ 0 ∷ rest))
    (h : Lacks 0 t) where
  -- The array behind the first word.
  abbrev front : Found pre t rest → List Arg
  front f = first_args ((pre ++ f.mid) ++ (f.later ++ 0 ∷ rest)) f.start

  first_read :
      (f : Found pre t rest) → text_at ((pre ++ f.mid) ++ (f.later ++ 0 ∷ rest)) f.start ≡ f.word
  first_read f = f.text (f.later ++ 0 ∷ rest) (λ last. (rest, ap (λ x. x ++ 0 ∷ rest) last))

  length-front :
      (f : Found pre t rest)
      → length (front f) + length (words f.later) ≡ length (arguments (words t))
  length-front f = omega (
    arith,
    length-first_args ((pre ++ f.mid) ++ (f.later ++ 0 ∷ rest)) f.start f.word (first_read f),
    length-append (expand f.word) (words f.later),
    ap (λ ws. length (arguments ws)) f.splits,
  )

  first_too_many :
      (f : Found pre t rest)
      → ag_num ≤ length (arguments (words t))
      → other_args
          (suc (length (pre ++ (t ++ 0 ∷ rest))))
          (tokens_at (pre ++ f.mid) f.later rest)
          (front f)
        ≡ none
  first_too_many f many =
      collect_too_many (suc (length (pre ++ (t ++ 0 ∷ rest)))) (pre ++ f.mid) f.later rest (front f)
        f.no_zero (omega (arith, length-front f))

  found-HasWords : Found pre t rest → length (arguments (words t)) < ag_num → HasWords sh pre t rest
  unfolding split_words strtok_first
  found-HasWords f fits =
      let enough : length f.later < suc (length (pre ++ (t ++ 0 ∷ rest))) =
        omega (arith, f.shorter, length-append pre (t ++ 0 ∷ rest), length-append t (0 ∷ rest)) in
      let c =
        collect (suc (length (pre ++ (t ++ 0 ∷ rest)))) (pre ++ f.mid) f.later rest (front f)
          f.no_zero enough (omega (arith, length-front f)) in
      let regroup = regrouped pre f.mid c.kept rest in
      let word =
        f.text (c.kept ++ 0 ∷ rest)
          (λ last. (rest, ap (λ x. x ++ 0 ∷ rest) (empty_of_length c.kept f.later c.size last))) in
      let final = pre ++ ((f.mid ++ c.kept) ++ 0 ∷ rest) in
      record {
        kept = f.mid ++ c.kept;
        args = front f ++ c.pointers;
        result = rw e (
            rw f.step (
              ap (filled sh) c.result
              ∙ (λ i. some (record sh { command = regroup i; myargv = front f ++ c.pointers }))));
        size = omega (arith, f.size, c.size, length-append f.mid c.kept);
        reads =
            map-append_args final (front f) c.pointers
            ∙ (λ i.
                first_args-expand ((pre ++ f.mid) ++ (f.later ++ 0 ∷ rest)) final f.start f.word
                  (first_read f) (ap (λ s. text_at s f.start) (sym regroup) ∙ word) i
                ++ (ap (λ s. map (arg_text s) c.pointers) (sym regroup) ∙ c.reads) i)
            ∙ ap arguments (sym f.splits);
      }

  pub split_words-none : words t ≡ [] → split_words (length pre) sh ≡ none
  unfolding split_words strtok_first
  split_words-none blank = rw e (elim (next_word pre t rest h) [
    | inl (no_words, (n, step)) ↦ rw step
    | inr f ↦ cc (f.splits, blank)
  ])

  pub split_words-HasWords :
      words t ≢ [] → length (arguments (words t)) < ag_num → HasWords sh pre t rest
  split_words-HasWords some_words fits = elim (next_word pre t rest h) [
    | inl (no_words, (n, step)) ↦ absurd (some_words no_words)
    | inr f ↦ found-HasWords f fits
  ]

  pub split_words_too_many :
      ag_num ≤ length (arguments (words t)) → split_words (length pre) sh ≡ none
  unfolding split_words strtok_first
  split_words_too_many many = rw e (elim (next_word pre t rest h) [
    | inl (no_words, (n, step)) ↦ rw step
    | inr f ↦ rw f.step (ap (filled sh) (first_too_many f many))
  ])
