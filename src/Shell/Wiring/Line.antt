-- ===== src/Shell/Wiring/Line.antt =====
-- pipe_t/MyShell/myshell.c: a line with pipes, from `fgets` to the processes.
use linux_learning_machine_c.Base.{ℕ, suc, ◌≡◌, List, [], ◌∷◌, ◌++◌, map, length, get_or, Bytes}
use linux_learning_machine_c.Shell.Process.{Process}
use linux_learning_machine_c.Shell.Bars.{split_bar, trim_left}
use linux_learning_machine_c.Shell.Wiring.{Laid}

-- A list put in front of another, the last item first.
abbrev rev_onto {ℓ} : {A : Type ℓ} → List A → List A → List A
rev_onto [] ys = ys
rev_onto (x ∷ xs) ys = rev_onto xs (x ∷ ys)

-- The commands of a line, the last first.
abbrev pub commands_of : Bytes → List Bytes
commands_of s = rev_onto (map trim_left (split_bar s).1) ((split_bar s).0 ∷ [])

-- The beginning of command number `m` in memory, behind `base`, where the commands `ts` are.
data Begun (ps : List ℕ) : ℕ → Bytes → List Bytes → Type 0 where
  begun_first : {base : Bytes} → base ≡ [] → Begun ps 0 base []
  begun_next :
      {m : ℕ} {s base : Bytes} {ts : List Bytes} (gap : Bytes)
      → Laid ps m s ts
      → get_or ps m 0 ≡ length (s ++ gap)
      → base ≡ s ++ gap
      → Begun ps (suc m) base ts
