-- ===== src/Shell/Redirect.antt =====
-- pipe_t/MyShell/myshell.c: `Redir_Check` cuts a command at its redirection.
pub mod Name
use linux_learning_machine_c.Base.{
  ℕ, suc, ◌+◌, ◌≤◌, ◌≡◌, ◌≢◌, refl, sym, ap, ◌∙◌, inl, inr, drop_tail, ◌==◌, Bool, true, false,
  ◌||◌, if◌then◌else◌, Option, none, some, [], ◌∷◌, ◌++◌, append_assoc, append-nil, length,
  length-append, drop, set, set-length, get_or, Bytes, Lacks, c_str, arith, Bool-cases, drop-drop,
  c_str_zero, drop-append, drop-suc-length, All-drop, snoc-append,
}
use linux_learning_machine_c.Shell.{
  Shell, Redir, none_redir, iniput_redir, output_redir, append_redir, spaces, trim_space, text_at,
  input_from, output_to, redir_loop, redir_check,
}
use linux_learning_machine_c.Shell.Bars.{trim_left, spaces_text, spaces-le}
use linux_learning_machine_c.Shell.Words.{get_or-drop}

abbrev pub is_angle : ℕ → Bool
is_angle c = c == b'<' || c == b'>'

-- The text in front of the first '<' or '>', and the text from it on.
abbrev pub before_angle : Bytes → Bytes
before_angle [] = []
before_angle (c ∷ s) = if is_angle c then [] else c ∷ before_angle s

abbrev pub from_angle : Bytes → Bytes
from_angle [] = []
from_angle (c ∷ s) = if is_angle c then c ∷ s else from_angle s

-- What stands behind a '>'.
abbrev pub target : Bytes → Redir × Bytes
target [] = (output_redir, [])
target (c ∷ s) =
    if c == b'>' then (append_redir, trim_left s) else (output_redir, trim_left (c ∷ s))

-- The redirection that a text from an angle on asks for, with the name of the file.
abbrev pub redirection : Bytes → Redir × Bytes
redirection [] = (none_redir, [])
redirection (c ∷ s) = if c == b'<' then (iniput_redir, trim_left s) else target s

angle_split : (t : Bytes) → before_angle t ++ from_angle t ≡ t
angle_split [] = refl
angle_split (c ∷ t) = elim (Bool-cases (is_angle c)) [
  | inl e ↦ rw e
  | inr e ↦ rw e (ap (◌∷◌ c) (angle_split t))
]

-- What `Redir_Check` leaves behind of a text: it is cut at the first angle.
abbrev pub behind : Bytes → Bytes → Bytes
behind [] rest = rest
behind (c ∷ v) rest = v ++ 0 ∷ rest

-- The name starts so far behind an angle.
abbrev pub skip : Bytes → ℕ
skip [] = 0
skip (c ∷ s) = if c == b'>' then suc (spaces s) else spaces (c ∷ s)

abbrev pub name_at : ℕ → Bytes → Option ℕ
name_at n [] = none
name_at n (c ∷ v) = if c == b'<' then some (suc n + spaces v) else some (suc n + skip v)

module _ (pre u : Bytes) where
  cut_at :
      (c : ℕ) (z : Bytes)
      → set (pre ++ (u ++ c ∷ z)) (length pre + length u) 0 ≡ pre ++ (u ++ 0 ∷ z)
  cut_at c z =
      ap (λ x. set x (length pre + length u) 0) (sym (append_assoc pre u (c ∷ z)))
      ∙ ap (λ n. set ((pre ++ u) ++ c ∷ z) n 0) (sym (length-append pre u))
      ∙ set-length (pre ++ u) c z 0
      ∙ append_assoc pre u (0 ∷ z)

  pub drop_behind : (z : Bytes) → drop (suc (length pre + length u)) (pre ++ (u ++ 0 ∷ z)) ≡ z
  drop_behind z =
      rw (sym (append_assoc pre u (0 ∷ z)), sym (length-append pre u))
        (drop-suc-length (pre ++ u) 0 z)

  trim_behind :
      (v rest : Bytes)
      → trim_space (pre ++ (u ++ 0 ∷ (v ++ 0 ∷ rest))) (suc (length pre + length u))
        ≡ suc (length pre + length u) + spaces v
  trim_behind v rest =
      ap (λ x. suc (length pre + length u) + spaces x) (drop_behind (v ++ 0 ∷ rest))
      ∙ ap (λ n. suc (length pre + length u) + n) (spaces_text v rest)

  get_behind :
      (d : ℕ) (z : Bytes) → get_or (pre ++ (u ++ 0 ∷ (d ∷ z))) (suc (length pre + length u)) 0 ≡ d
  get_behind d z =
      get_or-drop (suc (length pre + length u)) (pre ++ (u ++ 0 ∷ (d ∷ z))) z (drop_behind (d ∷ z))

module _ (pre rest : Bytes) (sh : Shell) where
  abbrev pub cut_shell : Bytes → Bytes → Shell
  cut_shell u v = record sh {
    command = pre ++ (u ++ 0 ∷ behind v rest);
    filename = name_at (length pre + length u) v;
    rd_option = (redirection v).0;
  }

  abbrev pub whole_shell : Bytes → Bytes → Shell
  whole_shell u t = record sh {
    command = pre ++ (u ++ (t ++ 0 ∷ rest));
    filename = none;
    rd_option = none_redir;
  }

  input_lem :
      (u v : Bytes) (c : ℕ)
      → (c == b'<') ≡ true
      → input_from (length pre + length u) (whole_shell u (c ∷ v)) ≡ cut_shell u (c ∷ v)
  input_lem u v c e = rw (cut_at pre u c (v ++ 0 ∷ rest), trim_behind pre u v rest, e)

  name_two :
      (u : Bytes) (d : ℕ) (v : Bytes)
      → record sh {
        command = pre ++ (u ++ 0 ∷ (d ∷ (v ++ 0 ∷ rest)));
        filename = some (
            trim_space
              (pre ++ (u ++ 0 ∷ (d ∷ (v ++ 0 ∷ rest))))
              (suc (suc (length pre + length u))));
        rd_option = append_redir;
      }
        ≡ record sh {
          command = pre ++ (u ++ 0 ∷ (d ∷ (v ++ 0 ∷ rest)));
          filename = some (suc (length pre + length u) + suc (spaces v));
          rd_option = append_redir;
        }
  name_two u d v =
      let n = suc (length pre + length u) in
      let text = pre ++ (u ++ 0 ∷ (d ∷ (v ++ 0 ∷ rest))) in
      let after = drop_tail n text (v ++ 0 ∷ rest) (drop_behind pre u (d ∷ (v ++ 0 ∷ rest))) in
      let moved : trim_space text (suc n) ≡ n + suc (spaces v) =
        omega (arith, ap spaces after, spaces_text v rest) in
      λ i. record sh { command = text; filename = some (moved i); rd_option = append_redir }

  output_lem :
      (u v : Bytes) (c : ℕ)
      → (c == b'<') ≡ false
      → output_to (length pre + length u) (whole_shell u (c ∷ v)) ≡ cut_shell u (c ∷ v)
  output_lem u [] c e =
      rw (cut_at pre u c (0 ∷ rest), get_behind pre u 0 rest, trim_behind pre u [] rest, e)
  output_lem u (d ∷ v) c e = elim (Bool-cases (d == b'>')) [
    | inl two ↦
        rw (cut_at pre u c (d ∷ v ++ 0 ∷ rest), get_behind pre u d (v ++ 0 ∷ rest), two, e)
          (name_two u d v)
    | inr one ↦ rw (
      cut_at pre u c (d ∷ v ++ 0 ∷ rest),
      get_behind pre u d (v ++ 0 ∷ rest),
      trim_behind pre u (d ∷ v) rest,
      one,
      e,
    )
  ]

  pub redir_loop_lem :
      (u t : Bytes)
      → redir_loop (length pre + length u) t (whole_shell u t)
        ≡ cut_shell (u ++ before_angle t) (from_angle t)
  unfolding redir_loop
  redir_loop_lem u [] = rw (append-nil u)
  redir_loop_lem u (c ∷ t) = elim (Bool-cases (c == b'<')) [
    | inl input ↦ rw (input, append-nil u) (input_lem u t c input)
    | inr other ↦ elim (Bool-cases (c == b'>')) [
      | inl output ↦ rw (other, output, append-nil u) (output_lem u t c other)
      | inr plain ↦
          let next : suc (length pre + length u) ≡ length pre + length (u ++ c ∷ []) =
            omega (arith, length-append u (c ∷ [])) in
          let start : whole_shell u (c ∷ t) ≡ whole_shell (u ++ c ∷ []) t =
            ap (λ x. record sh { command = pre ++ x; filename = none; rd_option = none_redir })
              (sym (snoc-append u c (t ++ 0 ∷ rest))) in
          rw (other, plain)
            ((λ i. redir_loop (next i) t (start i))
              ∙ redir_loop_lem (u ++ c ∷ []) t
              ∙ ap (λ w. cut_shell w (from_angle t)) (snoc-append u c (before_angle t)))
    ]
  ]

pub before_angle-Lacks : (t : Bytes) → Lacks 0 t → Lacks 0 (before_angle t)
before_angle-Lacks [] h = tt
before_angle-Lacks (c ∷ t) h = elim (Bool-cases (is_angle c)) [
  | inl e ↦ rw e tt
  | inr e ↦ rw e (h.0, before_angle-Lacks t h.1)
]

pub from_angle-Lacks : (t : Bytes) → Lacks 0 t → Lacks 0 (from_angle t)
from_angle-Lacks [] h = tt
from_angle-Lacks (c ∷ t) h = elim (Bool-cases (is_angle c)) [
  | inl e ↦ rw e h
  | inr e ↦ rw e (from_angle-Lacks t h.1)
]

no_angle : (t : Bytes) → Lacks b'<' t → Lacks b'>' t → (before_angle t ≡ t) × (from_angle t ≡ [])
no_angle [] l g = (refl, refl)
no_angle (c ∷ t) l g =
    let (same, nothing) = no_angle t l.1 g.1 in
    let other : is_angle c ≡ false = ground arith in
    (rw other (ap (◌∷◌ c) same), rw (other, nothing))

-- A line without an angle is left as it is.
pub redir_check-no_angle :
    (t rest : Bytes) (sh : Shell)
    → sh.command ≡ t ++ 0 ∷ rest
    → sh.filename ≡ none
    → sh.rd_option ≡ none_redir
    → Lacks 0 t
    → Lacks b'<' t
    → Lacks b'>' t
    → redir_check 0 sh ≡ sh
unfolding redir_check
redir_check-no_angle t rest sh e no_name no_redir h l g =
    let (same, nothing) = no_angle t l g in
    let start : sh ≡ whole_shell [] rest sh [] t =
      λ i. record sh { command = e i; filename = no_name i; rd_option = no_redir i } in
    ap (redir_check 0) start
    ∙ ap (λ x. redir_loop 0 x (whole_shell [] rest sh [] t)) (c_str_zero t rest h)
    ∙ redir_loop_lem [] rest sh [] t
    ∙ (λ i. cut_shell [] rest sh (same i) (nothing i))
    ∙ sym start
