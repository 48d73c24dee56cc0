-- ===== src/Shell/Words/Loop.antt =====
-- pipe_t/MyShell/myshell.c: `Command_Analysis` collects the words behind the first.
use linux_learning_machine_c.Base.{
  ℕ, zero, suc, ◌+◌, ◌≤◌, ◌<◌, ◌≡◌, inl, inr, refl, sym, ap, ◌∙◌, ltb, true, false, none, some,
  List, [], ◌∷◌, ◌++◌, map, append_assoc, append-nil, length, length-append, Bytes, Lacks, arith,
  lt→ltb, snoc-append, Bool-cases,
}
use linux_learning_machine_c.Shell.{Arg, at, text_at, arg_text, ag_num, other_args}
use linux_learning_machine_c.Shell.Words.{words, tokens_at}
use linux_learning_machine_c.Shell.Words.Args.{next_word}

-- The loop ends with pointers to all words; what stands outside of the text is still there.
pub record Collected (fuel : ℕ) (pre t rest : Bytes) (args : List Arg) : Type 0 where
  pub kept : Bytes
  pub pointers : List Arg
  pub result :
      other_args fuel (tokens_at pre t rest) args
      ≡ some (pre ++ (kept ++ 0 ∷ rest), args ++ pointers)
  pub size : length kept ≡ length t
  pub reads : map (arg_text (pre ++ (kept ++ 0 ∷ rest))) pointers ≡ words t

pub empty_of_length : (s t : Bytes) → length s ≡ length t → t ≡ [] → s ≡ []
empty_of_length [] t h e = refl
empty_of_length (c ∷ s) t h e = absurd (omega (arith, ap length e))

abbrev pub Fits : List Arg → Bytes → Type 0
Fits args t = length args + length (words t) < ag_num

pub regrouped :
    (pre mid kept rest : Bytes)
    → (pre ++ mid) ++ (kept ++ 0 ∷ rest) ≡ pre ++ ((mid ++ kept) ++ 0 ∷ rest)
regrouped pre mid kept rest =
    append_assoc pre mid (kept ++ 0 ∷ rest)
    ∙ ap (λ x. pre ++ x) (sym (append_assoc mid kept (0 ∷ rest)))

pub collect :
    (fuel : ℕ) (pre t rest : Bytes) (args : List Arg)
    → Lacks 0 t
    → length t < fuel
    → Fits args t
    → Collected fuel pre t rest args
unfolding other_args
collect zero pre t rest args h enough fits = elim enough [ ]
collect (suc fuel) pre t rest args h enough fits = elim (next_word pre t rest h) [
  | inl (no_words, (n, step)) ↦
      let room : ltb (length args) ag_num ≡ true = lt→ltb (length args) ag_num (omega arith) in
      record {
        kept = t;
        pointers = [];
        result = rw (step, room, append-nil args);
        size = refl;
        reads = sym no_words;
      }
  | inr f ↦
      let shorter = f.shorter in
      let fits' : Fits (args ++ at f.start ∷ []) f.later =
        omega (arith, ap length f.splits, length-append args (at f.start ∷ [])) in
      let room : ltb (length args) ag_num ≡ true =
        lt→ltb (length args) ag_num (omega (arith, ap length f.splits)) in
      let c =
        collect fuel (pre ++ f.mid) f.later rest (args ++ at f.start ∷ []) f.no_zero (omega arith)
          fits' in
      let regroup = regrouped pre f.mid c.kept rest in
      let word =
        f.text (c.kept ++ 0 ∷ rest)
          (λ last. (rest, ap (λ x. x ++ 0 ∷ rest) (empty_of_length c.kept f.later c.size last))) in
      record {
        kept = f.mid ++ c.kept;
        pointers = at f.start ∷ c.pointers;
        result =
            rw (f.step, room)
              (c.result ∙ (λ i. some (regroup i, snoc-append args (at f.start) c.pointers i)));
        size = omega (arith, f.size, c.size, length-append f.mid c.kept);
        reads =
            ap (λ s. text_at s f.start ∷ map (arg_text s) c.pointers) (sym regroup)
            ∙ (λ i. word i ∷ c.reads i)
            ∙ sym f.splits;
      }
]

pub collect_too_many :
    (fuel : ℕ) (pre t rest : Bytes) (args : List Arg)
    → Lacks 0 t
    → ag_num ≤ length args + length (words t)
    → other_args fuel (tokens_at pre t rest) args ≡ none
unfolding other_args
collect_too_many zero pre t rest args h many = refl
collect_too_many (suc fuel) pre t rest args h many = elim (next_word pre t rest h) [
  | inl (no_words, (n, step)) ↦
      let full : ltb (length args) ag_num ≡ false = ground (arith, ap length no_words) in
      rw (step, full)
  | inr f ↦
      let more : ag_num ≤ length (args ++ at f.start ∷ []) + length (words f.later) =
        omega (arith, ap length f.splits, length-append args (at f.start ∷ [])) in
      let rest_none =
        collect_too_many fuel (pre ++ f.mid) f.later rest (args ++ at f.start ∷ []) f.no_zero
          more in
      elim (Bool-cases (ltb (length args) ag_num)) [
        | inl room ↦ rw (f.step, room) rest_none
        | inr full ↦ rw (f.step, full)
      ]
]
