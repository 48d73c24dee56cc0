-- ===== src/ProcPool.antt =====
-- pipe_t/procpool/procpool.cc: a pool of child processes, each behind a pipe.
pub mod Pipes
mod Tests
use linux_learning_machine_c.Base.{
  ℕ, zero, suc, ◌+◌, ◌%◌, ◌==◌, ltb, Bool, true, false, ◌&&◌, if◌then◌else◌, Option, none, some,
  List, [], ◌∷◌, get_elem?, ◌++◌,
}

abbrev pub process_num : ℕ
process_num = 5

-- The functions that `loadTask` puts in the table, in its order.
pub data Task : Type 0 where
  task1 task2 task3 task4 : Task

abbrev pub load_task : List Task
load_task = task1 ∷ task2 ∷ task3 ∷ task4 ∷ []

-- The two ends of the pipe of child `i`.
pub data End : Type 0 where
  reader writer : ℕ → End

abbrev pub same_end : End → End → Bool
same_end (reader i) (reader j) = i == j
same_end (reader i) (writer j) = false
same_end (writer i) (reader j) = false
same_end (writer i) (writer j) = i == j

-- `close`, in the process that has these ends open.
unfoldable pub close : End → List End → List End
close e [] = []
close e (x ∷ xs) = let rest = close e xs in if same_end x e then rest else x ∷ rest

unfoldable pub close_all : List End → List End → List End
close_all [] xs = xs
close_all (e ∷ es) xs = close_all es (close e xs)

-- What the parent has open, its list `wfd` and what each child has open, the newest child first.
pub record Pool : Type 0 where
  pub parent : List End
  pub wfd : List End
  pub children : List (List End)

abbrev pub no_children : Pool
no_children = record { parent = []; wfd = []; children = [] }

-- One round of `ApplyChidProcess`: `pipe`, `fork` (the child starts with what the parent has open),
-- and what each of the two closes.
unfoldable pub apply_child : ℕ → Pool → Pool
apply_child i p =
    let opened = writer i ∷ reader i ∷ p.parent in
    record {
      parent = close (reader i) opened;
      wfd = writer i ∷ p.wfd;
      children = close (writer i) (close_all p.wfd opened) ∷ p.children;
    }

-- `ApplyChidProcess`, for `n` children from the first on.
unfoldable pub apply_children : ℕ → Pool
unfolding apply_child
apply_children zero = no_children
apply_children (suc n) = apply_child n (apply_children n)

-- `ChildProcess`, over what `read` gives (`none` is the end of the file): the tasks that it calls, or
-- `none` for an index behind the table.
abbrev pub call_first : Option Task → Option (List Task) → Option (List Task)
call_first none ts = none
call_first (some t) none = none
call_first (some t) (some ts) = some (t ∷ ts)

unfoldable pub child_process : List (Option ℕ) → Option (List Task)
child_process [] = some []
child_process (none ∷ rs) = some []
child_process (some i ∷ rs) = call_first (get_elem? load_task i) (child_process rs)

-- `AllocTask` from round `i` on, over whether `write` succeeds: the child and the task of each round.
unfoldable pub alloc_from : ℕ → ℕ → List Bool → List (ℕ × ℕ)
alloc_from zero i ws = []
alloc_from (suc n) i [] = []
alloc_from (suc n) i (w ∷ ws) =
    let rest = alloc_from n (suc i) ws in if w then (i % process_num, i % 4) ∷ rest else []

unfoldable pub alloc_task : List Bool → List (ℕ × ℕ)
unfolding alloc_from
alloc_task ws = alloc_from 15 0 ws
