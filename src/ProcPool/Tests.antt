-- ===== src/ProcPool/Tests.antt =====
-- The process pool of pipe_t with five children.
use mathlib.Core.Path.{◌≡◌, refl}
use linux_learning_machine_c.Base.{true, false, [], ◌∷◌, some, none}
use linux_learning_machine_c.ProcPool.{
  process_num, apply_children, alloc_task, alloc_from, child_process, task1, task3,
}
use linux_learning_machine_c.ProcPool.Pipes.{EachReads, apply_children-EachReads}

-- The third `write` fails.
alloc_task_runs : alloc_task (true ∷ true ∷ false ∷ true ∷ []) ≡ (0, 0) ∷ (1, 1) ∷ []
unfolding alloc_task alloc_from
alloc_task_runs = refl

child_process_runs : child_process (some 0 ∷ some 2 ∷ none ∷ []) ≡ some (task1 ∷ task3 ∷ [])
unfolding child_process
child_process_runs = refl

apply_children-EachReads_example : EachReads process_num (apply_children process_num).children
apply_children-EachReads_example = apply_children-EachReads process_num
