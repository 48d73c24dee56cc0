-- ===== src/Shell/Redirect/Name.antt =====
-- pipe_t/MyShell/myshell.c: the name of the file of a redirection.
use linux_learning_machine_c.Base.{
  ℕ, suc, ◌+◌, ◌≤◌, ◌≡◌, ◌≢◌, refl, ap, ◌∙◌, inl, inr, ◌==◌, Option, none, some, [], ◌∷◌, ◌++◌,
  length, drop, Bytes, Lacks, c_str, arith, Bool-cases, drop-drop, c_str_zero, drop-append,
  All-drop,
}
use linux_learning_machine_c.Shell.{spaces, text_at}
use linux_learning_machine_c.Shell.Bars.{spaces-le}
use linux_learning_machine_c.Shell.Redirect.{
  redirection, behind, name_at, skip, target, drop_behind,
}

abbrev pub name_text : Bytes → Option ℕ → Bytes
name_text s none = []
name_text s (some p) = text_at s p

-- The name of the file can still be read when the words in front have been cut.
module _ (pre kept rest : Bytes) where
  text_behind :
      (v : Bytes) (k : ℕ)
      → k ≤ length v
      → Lacks 0 v
      → text_at (pre ++ (kept ++ 0 ∷ (v ++ 0 ∷ rest))) (suc (length pre + length kept) + k)
        ≡ drop k v
  text_behind v k small h =
      ap c_str (
        drop-drop (suc (length pre + length kept)) k (pre ++ (kept ++ 0 ∷ (v ++ 0 ∷ rest)))
        ∙ ap (drop k) (drop_behind pre kept (v ++ 0 ∷ rest))
        ∙ drop-append k v (0 ∷ rest) small)
      ∙ c_str_zero (drop k v) rest (All-drop (λ x. x ≢ 0) k v h)

  name_output :
      (v : Bytes)
      → Lacks 0 v
      → text_at (pre ++ (kept ++ 0 ∷ (v ++ 0 ∷ rest))) (suc (length pre + length kept) + skip v)
        ≡ (target v).1
  name_output [] h = text_behind [] 0 (omega arith) h
  name_output (d ∷ v) h = elim (Bool-cases (d == b'>')) [
    | inl two ↦ rw two (text_behind (d ∷ v) (suc (spaces v)) (omega (arith, spaces-le v)) h)
    | inr one ↦ rw one (text_behind (d ∷ v) (spaces (d ∷ v)) (spaces-le (d ∷ v)) h)
  ]

  pub name_lem :
      (v : Bytes)
      → Lacks 0 v
      → name_text (pre ++ (kept ++ 0 ∷ behind v rest)) (name_at (length pre + length kept) v)
        ≡ (redirection v).1
  name_lem [] h = refl
  name_lem (c ∷ v) h = elim (Bool-cases (c == b'<')) [
    | inl input ↦ rw input (text_behind v (spaces v) (spaces-le v) h.1)
    | inr other ↦ rw other (name_output v h.1)
  ]
