-- ===== src/Shell/Cutting.antt =====
-- pipe_t/MyShell/myshell.c: `Pipe_Check` cuts the command line at its bars.
use linux_learning_machine_c.Base.{
  ℕ, zero, suc, ◌+◌, ◌≤◌, ◌≡◌, refl, sym, ap, ◌∙◌, ◌==◌, ltb, true, false, some, List, [], ◌∷◌,
  ◌++◌, map, append_assoc, append-nil, length, length-append, take, drop, set, set-length, get_or,
  get_or-length, Bytes, Lacks, c_str, arith, Bool-cases, inl, inr, lt→ltb, drop-drop, drop_tail,
  c_str_zero, drop-suc-length, length-take, take-append-drop, length-drop, snoc-append,
}
use linux_learning_machine_c.Shell.{Shell, is_space, spaces, pc_num, text_at, pipe_loop, pipe_check}
use linux_learning_machine_c.Shell.Bars.{
  split_bar, trim_left, cut_char, starts, spaces_text, spaces-le, map-cut_spaces, starts-spaces,
  split_bar-spaces,
}

-- The globals that `Pipe_Check` writes.
abbrev pub cells : Shell → Bytes → List ℕ → Shell
cells sh s ps = record sh { command = s; pipe_command = ps }

module _ (rest : Bytes) (sh : Shell) where
  -- Where the loop goes on behind a bar and the spaces behind it.
  behind :
      (done t : Bytes)
      → done ++ 0 ∷ (t ++ 0 ∷ rest)
        ≡ (done ++ 0 ∷ take (spaces t) t) ++ (drop (spaces t) t ++ 0 ∷ rest)
  behind done t =
      let split = take-append-drop (spaces t) t in
      sym (
        append_assoc done (0 ∷ take (spaces t) t) (drop (spaces t) t ++ 0 ∷ rest)
        ∙ ap (λ x. done ++ 0 ∷ x)
            (sym (append_assoc (take (spaces t) t) (drop (spaces t) t) (0 ∷ rest))
              ∙ ap (λ x. x ++ 0 ∷ rest) split))

  behind_cut :
      (done t : Bytes)
      → (done ++ 0 ∷ take (spaces t) t) ++ (map cut_char (drop (spaces t) t) ++ 0 ∷ rest)
        ≡ done ++ 0 ∷ (map cut_char t ++ 0 ∷ rest)
  behind_cut done t =
      append_assoc done (0 ∷ take (spaces t) t) (map cut_char (drop (spaces t) t) ++ 0 ∷ rest)
      ∙ ap (λ x. done ++ 0 ∷ x)
          (sym (append_assoc (take (spaces t) t) (map cut_char (drop (spaces t) t)) (0 ∷ rest))
            ∙ ap (λ x. x ++ 0 ∷ rest) (sym (map-cut_spaces t)))

  pipe_loop_lem :
      (fuel : ℕ) (done todo : Bytes) (ps : List ℕ) (n len : ℕ) (s : Bytes)
      → n ≡ length done
      → len ≡ n + length todo
      → s ≡ done ++ (todo ++ 0 ∷ rest)
      → length todo ≤ fuel
      → length ps + length (split_bar todo).1 ≤ pc_num
      → pipe_loop fuel len n (cells sh s ps)
        ≡ some (cells sh (done ++ (map cut_char todo ++ 0 ∷ rest)) (ps ++ starts n todo))
  unfolding pipe_loop
  pipe_loop_lem zero done [] ps n len s en el es h room = rw (es, append-nil ps)
  pipe_loop_lem zero done (c ∷ t) ps n len s en el es h room = elim h [ ]
  pipe_loop_lem (suc fuel) done [] ps n len s en el es h room =
      let stop : ltb n len ≡ false = ground arith in rw (stop, es, append-nil ps)
  pipe_loop_lem (suc fuel) done (c ∷ t) ps n len s en el es h room = elim (Bool-cases (c == b'|')) [
    | inl bar ↦
        let lt : ltb n len ≡ true = lt→ltb n len (omega arith) in
        let got : get_or s n 0 ≡ c = rw (es, en) (get_or-length done c (t ++ 0 ∷ rest) 0) in
        let cut : set s n 0 ≡ done ++ 0 ∷ (t ++ 0 ∷ rest) =
          rw (es, en) (set-length done c (t ++ 0 ∷ rest) 0) in
        let next : suc n + spaces (drop (suc n) (done ++ 0 ∷ (t ++ 0 ∷ rest))) ≡ suc n + spaces t =
          rw en (
            ap (λ x. suc (length done) + spaces x) (drop-suc-length done 0 (t ++ 0 ∷ rest))
            ∙ ap (λ x. suc (length done) + x) (spaces_text t rest)) in
        let room' : length ps + suc (length (split_bar t).1) ≤ pc_num = rw bar at room in
        let fits : ltb (length ps) pc_num ≡ true = lt→ltb (length ps) pc_num (omega arith) in
        let k-le = spaces-le t in
        let fit : length (ps ++ (suc n + spaces t) ∷ []) + length (split_bar (drop (spaces t) t)).1
            ≤ pc_num =
          rw (split_bar-spaces t) (omega (arith, length-append ps ((suc n + spaces t) ∷ []))) in
        let later =
          ap (λ x. (ps ++ (suc n + spaces t) ∷ []) ++ x) (sym (starts-spaces (suc n) t))
          ∙ snoc-append ps (suc n + spaces t) (starts (suc n) t) in
        rw (lt, got, bar, cut, fits, next)
          (pipe_loop_lem fuel (done ++ 0 ∷ take (spaces t) t) (drop (spaces t) t)
              (ps ++ (suc n + spaces t) ∷ []) (suc n + spaces t) len (done ++ 0 ∷ (t ++ 0 ∷ rest))
              (omega (arith, length-append done (0 ∷ take (spaces t) t), length-take (spaces t) t))
              (omega (arith, length-drop (spaces t) t)) (behind done t)
              (omega (arith, length-drop (spaces t) t)) fit
            ∙ (λ i. some (cells sh (behind_cut done t i) (later i))))
    | inr other ↦
        let lt : ltb n len ≡ true = lt→ltb n len (omega arith) in
        let got : get_or s n 0 ≡ c = rw (es, en) (get_or-length done c (t ++ 0 ∷ rest) 0) in
        let room' : length ps + length (split_bar t).1 ≤ pc_num = rw other at room in
        rw (lt, got, other)
          (pipe_loop_lem fuel (done ++ c ∷ []) t ps (suc n) len s
              (omega (arith, length-append done (c ∷ []))) (omega arith)
              (es ∙ sym (snoc-append done c (t ++ 0 ∷ rest))) (omega arith) room'
            ∙ (λ i. some (
                cells sh (snoc-append done c (map cut_char t ++ 0 ∷ rest) i)
                  (ps ++ starts (suc n) t))))
  ]

text_first : (s rest : Bytes) → Lacks 0 s → c_str (map cut_char s ++ 0 ∷ rest) ≡ (split_bar s).0
text_first [] rest h = refl
text_first (zero ∷ s) rest h = absurd (h.0 refl)
text_first (suc c ∷ s) rest h = elim (Bool-cases (suc c == b'|')) [
  | inl bar ↦ rw bar
  | inr other ↦ rw other (ap (◌∷◌ (suc c)) (text_first s rest h.1))
]

-- The text at a place where a command starts.
text_trimmed :
    (s rest : Bytes)
    → Lacks 0 s
    → c_str (drop (spaces s) (map cut_char s ++ 0 ∷ rest)) ≡ trim_left (split_bar s).0
text_trimmed [] rest h = refl
text_trimmed (c ∷ s) rest h = elim (Bool-cases (is_space c)) [
  | inl e ↦
      let other : (c == b'|') ≡ false = ground arith in rw (e, other, e) (text_trimmed s rest h.1)
  | inr e ↦ rw e (
      text_first (c ∷ s) rest h
      ∙ elim (Bool-cases (c == b'|')) [ inl bar ↦ rw bar | inr other ↦ rw (other, e) ])
]

texts_behind :
    (n : ℕ) (s rest all : Bytes)
    → Lacks 0 s
    → drop n all ≡ map cut_char s ++ 0 ∷ rest
    → map (text_at all) (starts n s) ≡ map trim_left (split_bar s).1
texts_behind n [] rest all h e = refl
texts_behind n (c ∷ s) rest all h e =
    let behind = drop_tail n all (map cut_char s ++ 0 ∷ rest) e in
    let others = texts_behind (suc n) s rest all h.1 behind in
    elim (Bool-cases (c == b'|')) [
      | inl bar ↦
          let first : text_at all (suc n + spaces s) ≡ trim_left (split_bar s).0 =
            ap c_str (drop-drop (suc n) (spaces s) all ∙ ap (drop (spaces s)) behind)
            ∙ text_trimmed s rest h.1 in
          rw bar (λ i. first i ∷ others i)
      | inr other ↦ rw other others
    ]

-- What `Pipe_Check` makes of the line and of the array.
pub pipe_check-cut :
    (s rest : Bytes) (sh : Shell)
    → sh.command ≡ s ++ 0 ∷ rest
    → sh.pipe_command ≡ []
    → Lacks 0 s
    → length (split_bar s).1 ≤ pc_num
    → pipe_check sh ≡ some (cells sh (map cut_char s ++ 0 ∷ rest) (starts 0 s))
unfolding pipe_check
pipe_check-cut s rest sh e none_yet h room =
    let same : sh ≡ cells sh (s ++ 0 ∷ rest) [] = λ i. cells sh (e i) (none_yet i) in
    let text = c_str (s ++ 0 ∷ rest) in
    let len : length text ≡ 0 + length s = omega (arith, ap length (c_str_zero s rest h)) in
    ap pipe_check same
    ∙ pipe_loop_lem rest sh (length text) [] s [] 0 (length text) (s ++ 0 ∷ rest) refl len refl
        (omega (arith, len)) (omega arith)

-- `Pipe_Check` on a line of at most 64 bars leaves, at the beginning of `Command`, the text before the
-- first bar, and in `Pipe_Command` the texts behind the bars, in order, without the spaces in front.
pub pipe_check-split_bar :
    (s rest : Bytes) (sh : Shell)
    → sh.command ≡ s ++ 0 ∷ rest
    → sh.pipe_command ≡ []
    → Lacks 0 s
    → length (split_bar s).1 ≤ pc_num
    → (sh' : Shell) × (pipe_check sh ≡ some sh')
      × (text_at sh'.command 0 ≡ (split_bar s).0)
      × (map (text_at sh'.command) sh'.pipe_command ≡ map trim_left (split_bar s).1)
pipe_check-split_bar s rest sh e none_yet h room = (
  cells sh (map cut_char s ++ 0 ∷ rest) (starts 0 s),
  pipe_check-cut s rest sh e none_yet h room,
  text_first s rest h,
  texts_behind 0 s rest (map cut_char s ++ 0 ∷ rest) h refl,
)

no_bar :
    (s : Bytes) (n : ℕ)
    → Lacks b'|' s
    → (map cut_char s ≡ s) × (starts n s ≡ []) × (length (split_bar s).1 ≡ 0)
no_bar [] n h = (refl, refl, refl)
no_bar (c ∷ s) n h =
    let (same, none_yet, few) = no_bar s (suc n) h.1 in
    let other : (c == b'|') ≡ false = ground arith in
    (rw other (ap (◌∷◌ c) same), rw (other, none_yet), rw (other, few))

-- A line without a bar is left as it is.
pub pipe_check-no_bar :
    (s rest : Bytes) (sh : Shell)
    → sh.command ≡ s ++ 0 ∷ rest
    → sh.pipe_command ≡ []
    → Lacks 0 s
    → Lacks b'|' s
    → pipe_check sh ≡ some sh
pipe_check-no_bar s rest sh e none_yet h bars =
    let (same, none_found, few) = no_bar s 0 bars in
    pipe_check-cut s rest sh e none_yet h (omega (arith, few))
    ∙ (λ i. some (cells sh (same i ++ 0 ∷ rest) (none_found i)))
    ∙ (λ i. some (cells sh (sym e i) (sym none_yet i)))
