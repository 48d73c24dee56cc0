-- ===== src/ProcPool/Pipes.antt =====
-- pipe_t/procpool: which process holds which end of the pipes.
use linux_learning_machine_c.Base.{
  ℕ, zero, suc, ◌≡◌, refl, ◌∙◌, ltb, Bool, true, false, if◌then◌else◌, List, [], ◌∷◌, arith,
}
use linux_learning_machine_c.ProcPool.{
  End, reader, writer, same_end, close, close_all, apply_child, apply_children,
}

-- The end is open.
unfoldable pub is_open : End → List End → Bool
is_open e [] = false
is_open e (x ∷ xs) = if same_end x e then true else is_open e xs

same_end_trans : (x d e : End) → same_end x d ≡ true → same_end x e ≡ same_end d e
same_end_trans (reader i) (reader j) (reader k) h = ground arith
same_end_trans (reader i) (reader j) (writer k) h = refl
same_end_trans (reader i) (writer j) e h = cc
same_end_trans (writer i) (reader j) e h = cc
same_end_trans (writer i) (writer j) (reader k) h = refl
same_end_trans (writer i) (writer j) (writer k) h = ground arith

same_end_right : (x d e : End) → same_end d e ≡ true → same_end x e ≡ same_end x d
same_end_right (reader i) (reader j) (reader k) h = ground arith
same_end_right (writer i) (reader j) (reader k) h = refl
same_end_right x (reader j) (writer k) h = cc
same_end_right x (writer j) (reader k) h = cc
same_end_right (reader i) (writer j) (writer k) h = refl
same_end_right (writer i) (writer j) (writer k) h = ground arith

is_open-close :
    (e d : End) (xs : List End)
    → is_open e (close d xs) ≡ (if same_end d e then false else is_open e xs)
unfolding is_open close
is_open-close e d [] = ground arith
is_open-close e d (x ∷ xs) =
    ground (arith, is_open-close e d xs, same_end_trans x d e, same_end_right x d e)

is_open-close_all :
    (e : End) (ds xs : List End)
    → is_open e (close_all ds xs) ≡ (if is_open e ds then false else is_open e xs)
unfolding is_open close_all
is_open-close_all e [] xs = refl
is_open-close_all e (d ∷ ds) xs =
    is_open-close_all e ds (close d xs) ∙ ground (arith, is_open-close e d xs)

-- The writing ends of the first `n` pipes.
abbrev pub is_writer_below : ℕ → End → Bool
is_writer_below n (reader i) = false
is_writer_below n (writer i) = ltb i n

parent-is_open :
    (n : ℕ) (e : End)
    → (is_open e (apply_children n).parent ≡ is_writer_below n e)
      × (is_open e (apply_children n).wfd ≡ is_writer_below n e)
unfolding is_open apply_children apply_child
parent-is_open zero (reader i) = (refl, refl)
parent-is_open zero (writer i) = (ground arith, ground arith)
parent-is_open (suc n) (reader i) =
    let (p, w) = parent-is_open n (reader i) in
    (is_open-close (reader i) (reader n) _ ∙ ground (arith, p), ground (arith, w))
parent-is_open (suc n) (writer i) =
    let (p, w) = parent-is_open n (writer i) in
    (is_open-close (writer i) (reader n) _ ∙ ground (arith, p), ground (arith, w))

-- The child of number `n` when it is made.
newest-is_open :
    (n : ℕ) (e : End)
    → is_open e (
        close
          (writer n)
          (close_all (apply_children n).wfd (writer n ∷ reader n ∷ (apply_children n).parent)))
      ≡ same_end (reader n) e
unfolding is_open
newest-is_open n (reader i) =
    let (p, w) = parent-is_open n (reader i) in
    is_open-close (reader i) (writer n) _
    ∙ is_open-close_all (reader i) (apply_children n).wfd _
    ∙ ground (arith, p, w)
newest-is_open n (writer i) =
    let (p, w) = parent-is_open n (writer i) in
    is_open-close (writer i) (writer n) _
    ∙ ground (
      arith,
      p,
      w,
      is_open-close_all (writer i) (apply_children n).wfd
          (writer n ∷ reader n ∷ (apply_children n).parent),
    )

-- Every child, the newest of number `n - 1` first, has open its own reading end only.
abbrev pub EachReads : ℕ → List (List End) → Type 0
EachReads n [] = n ≡ 0
EachReads zero (c ∷ cs) = ⊥
EachReads (suc n) (c ∷ cs) = ((e : End) → is_open e c ≡ same_end (reader n) e) × EachReads n cs

-- However many children are made, each has nothing open but the reading end of its own pipe. So no
-- child keeps the pipe of another open, and each reads the end of the file once the parent has closed
-- its writing end.
pub apply_children-EachReads : (n : ℕ) → EachReads n (apply_children n).children
unfolding apply_children apply_child
apply_children-EachReads zero = refl
apply_children-EachReads (suc n) = (newest-is_open n, apply_children-EachReads n)
