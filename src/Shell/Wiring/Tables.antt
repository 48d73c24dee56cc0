-- ===== src/Shell/Wiring/Tables.antt =====
-- pipe_t/MyShell/myshell.c: the lowest free descriptor of a process, which `pipe` and `open` take.
use linux_learning_machine_c.Base.{
  ℕ, zero, suc, ◌≡◌, ◌≢◌, refl, sym, ap, ◌∙◌, Bool, true, false, none, some, List, [], ◌∷◌, get_or,
  set,
}
use linux_learning_machine_c.Shell.Process.{
  File, reader, writer, Table, lowest, install, dup2, close, join_reader,
}

pub lowest_free : (t : Table) → get_or t (lowest t) none ≡ none
unfolding lowest
lowest_free [] = refl
lowest_free (none ∷ t) = refl
lowest_free (some f ∷ t) = lowest_free t

pub install_self : (f : File) (t : Table) → get_or (install f t) (lowest t) none ≡ some f
unfolding lowest install
install_self f [] = refl
install_self f (none ∷ t) = refl
install_self f (some g ∷ t) = install_self f t

pub install_keeps :
    (f g : File) (t : Table) (k : ℕ)
    → get_or t k none ≡ some g
    → get_or (install f t) k none ≡ some g
unfolding install
install_keeps f g [] k h = cc
install_keeps f g (none ∷ t) zero h = cc
install_keeps f g (none ∷ t) (suc k) h = h
install_keeps f g (some x ∷ t) zero h = h
install_keeps f g (some x ∷ t) (suc k) h = install_keeps f g t k h

pub get_or-set_ne {ℓ} :
    {A : Type ℓ} (xs : List A) (i k : ℕ) (v d : A) → i ≢ k → get_or (set xs i v) k d ≡ get_or xs k d
get_or-set_ne [] i k v d h = refl
get_or-set_ne (x ∷ xs) zero zero v d h = absurd (h refl)
get_or-set_ne (x ∷ xs) zero (suc k) v d h = refl
get_or-set_ne (x ∷ xs) (suc i) zero v d h = refl
get_or-set_ne (x ∷ xs) (suc i) (suc k) v d h = get_or-set_ne xs i k v d (λ e. h (ap suc e))

-- The two ends of a new pipe get descriptors of their own.
pub ends_differ : (f : File) (t : Table) → lowest t ≢ lowest (install f t)
ends_differ f t e =
    let taken : get_or (install f t) (lowest (install f t)) none ≡ some f =
      rw (sym e) (install_self f t) in
    cc (taken, lowest_free (install f t))

-- A process that makes a pipe, and what it and its child do with the ends.
module _ (input output other : File) (u : Table) (m : ℕ) where
  abbrev pub base : Table
  base = some input ∷ some output ∷ some other ∷ u

  abbrev pub reader_at : ℕ
  reader_at = lowest base

  abbrev pub writer_at : ℕ
  writer_at = lowest (install (reader m) base)

  abbrev pub with_pipe : Table
  with_pipe = install (writer m) (install (reader m) base)

  reader_kept : get_or (install (writer m) (install (reader m) u)) (lowest u) none ≡ some (reader m)
  reader_kept =
      install_keeps (writer m) (reader m) (install (reader m) u) (lowest u)
        (install_self (reader m) u)

  writer_kept :
      get_or (install (writer m) (install (reader m) u)) (lowest (install (reader m) u)) none
      ≡ some (writer m)
  writer_kept = install_self (writer m) (install (reader m) u)

  pub child_table :
      dup2 writer_at 1 (close reader_at with_pipe)
      ≡ some input
        ∷ some (writer m)
        ∷ some other
        ∷ set (install (writer m) (install (reader m) u)) (lowest u) none
  unfolding lowest install
  child_table =
      let kept =
        get_or-set_ne (install (writer m) (install (reader m) u)) (lowest u)
          (lowest (install (reader m) u)) none none (ends_differ (reader m) u) in
      rw (kept, writer_kept)

  pub parent_input :
      (given : Bool)
      → get_or (join_reader given reader_at writer_at with_pipe) 0 none ≡ some (reader m)
  unfolding lowest install
  parent_input true = reader_kept
  parent_input false =
      get_or-set_ne (install (writer m) (install (reader m) u)) (lowest (install (reader m) u))
        (lowest u) none none (λ e. ends_differ (reader m) u (sym e))
      ∙ reader_kept

  pub parent_output :
      (given : Bool) → get_or (join_reader given reader_at writer_at with_pipe) 1 none ≡ some output
  unfolding lowest install
  parent_output true = refl
  parent_output false = refl

  pub parent_writer :
      get_or (join_reader true reader_at writer_at with_pipe) writer_at none ≡ some (writer m)
  unfolding lowest install
  parent_writer = writer_kept
