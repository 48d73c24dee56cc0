-- ===== src/Multiplex/Select/Watch.antt =====
-- IO/select_server: which descriptors `run` asks `select` about.
use linux_learning_machine_c.Base.{
  ℕ, suc, ◌≤◌, ◌<◌, ◌≡◌, Bool, false, ltb, if◌then◌else◌, none, some, Option-cases, inl, inr, List,
  [], ◌∷◌, arith,
}
use linux_learning_machine_c.Multiplex.Slots.{uses}
use linux_learning_machine_c.Multiplex.Select.{Slots, fd_of, fds_of, nfds_of, is_in, selected}

nfds_of-ge : (n : ℕ) (slots : Slots) → n ≤ nfds_of n slots
unfolding nfds_of
nfds_of-ge n [] = omega arith
nfds_of-ge n (none ∷ slots) = nfds_of-ge n slots
nfds_of-ge n (some fd ∷ slots) =
    ground (arith, nfds_of-ge (if ltb n (suc fd) then suc fd else n) slots)

lt-nfds_of : (j n : ℕ) (slots : Slots) → 0 < uses fd_of j slots → j < nfds_of n slots
unfolding nfds_of uses
lt-nfds_of j n [] h = ground arith
lt-nfds_of j n (none ∷ slots) h = lt-nfds_of j n slots (omega arith)
lt-nfds_of j n (some fd ∷ slots) h = ground (
  arith,
  lt-nfds_of j (if ltb n (suc fd) then suc fd else n) slots,
  nfds_of-ge (if ltb n (suc fd) then suc fd else n) slots,
)

is_in-fds_of :
    (slots : Slots) (fds : List ℕ)
    → fds_of slots ≡ some fds
    → (j : ℕ) → is_in j fds ≡ ltb 0 (uses fd_of j slots)
unfolding fds_of uses
is_in-fds_of [] fds h j = ground arith
is_in-fds_of (none ∷ slots) fds h j = ground (arith, is_in-fds_of slots fds h j)
is_in-fds_of (some fd ∷ slots) fds h j = elim (Option-cases (fds_of slots)) [
  | inl e ↦ ground (arith, e)
  | inr (rest, e) ↦ ground (arith, e, is_in-fds_of slots rest e j)
]

-- `select` is asked about exactly the descriptors of the array: where the set can hold them all, a
-- descriptor of the array is reported if it is ready, and no other is reported.
pub selected-array :
    (slots : Slots) (fds : List ℕ) (nfds : ℕ) (ready : ℕ → Bool) (j : ℕ)
    → fds_of slots ≡ some fds
    → selected (nfds_of nfds slots) fds ready j
      ≡ (if ltb 0 (uses fd_of j slots) then ready j else false)
selected-array slots fds nfds ready j h =
    ground (arith, is_in-fds_of slots fds h j, lt-nfds_of j nfds slots)
