-- ===== src/Threads/Label.antt =====
-- thread_t: what a step of a queue does to the queue that its callers see. `pop` returns a reference:
-- a step binds it to an item, and reading it, where that is defined, is a step of its own.
use linux_learning_machine_c.Base.{List, [], ◌∷◌, ◌++◌}

pub data Label (A : Type 0) : Type 0 where
  silent : Label A
  pushes : A → Label A
  binds : A → Label A
  reads : A → Label A

-- The items that a step puts in.
abbrev pub put_in : {A : Type 0} → Label A → List A
put_in silent = []
put_in (pushes v) = v ∷ []
put_in (binds v) = []
put_in (reads v) = []

-- The items that a step binds a reference to.
abbrev pub bound : {A : Type 0} → Label A → List A
bound silent = []
bound (pushes v) = []
bound (binds v) = v ∷ []
bound (reads v) = []

abbrev pub all_in : {A : Type 0} → List (Label A) → List A
all_in [] = []
all_in (l ∷ ls) = put_in l ++ all_in ls

abbrev pub all_bound : {A : Type 0} → List (Label A) → List A
all_bound [] = []
all_bound (l ∷ ls) = bound l ++ all_bound ls
