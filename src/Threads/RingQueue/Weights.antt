-- ===== src/Threads/RingQueue/Weights.antt =====
-- thread_t/ring_queue: what a thread of `ring_queue` stands for in the counts.
use linux_learning_machine_c.Base.{ℕ}
use linux_learning_machine_c.Threads.RingQueue.{Producer, Consumer}

-- A producer that has taken room and not yet stored, and one that has stored and not yet posted.
abbrev pub has_room : {A : Type 0} → Producer A → ℕ
has_room Producer.idle = 0
has_room (Producer.claimed v) = 1
has_room (Producer.locked v) = 1
has_room Producer.stored = 0
has_room Producer.unlocked = 0

abbrev pub has_stored : {A : Type 0} → Producer A → ℕ
has_stored Producer.idle = 0
has_stored (Producer.claimed v) = 0
has_stored (Producer.locked v) = 0
has_stored Producer.stored = 1
has_stored Producer.unlocked = 1

-- A producer between lock and unlock.
abbrev pub stores : {A : Type 0} → Producer A → ℕ
stores Producer.idle = 0
stores (Producer.claimed v) = 0
stores (Producer.locked v) = 1
stores Producer.stored = 1
stores Producer.unlocked = 0

-- The same of consumers.
abbrev pub has_item : Consumer → ℕ
has_item Consumer.idle = 0
has_item Consumer.claimed = 1
has_item Consumer.locked = 1
has_item (Consumer.took at) = 0
has_item (Consumer.unlocked at) = 0
has_item (Consumer.holding at) = 0

abbrev pub has_taken : Consumer → ℕ
has_taken Consumer.idle = 0
has_taken Consumer.claimed = 0
has_taken Consumer.locked = 0
has_taken (Consumer.took at) = 1
has_taken (Consumer.unlocked at) = 1
has_taken (Consumer.holding at) = 0

abbrev pub takes : Consumer → ℕ
takes Consumer.idle = 0
takes Consumer.claimed = 0
takes Consumer.locked = 1
takes (Consumer.took at) = 1
takes (Consumer.unlocked at) = 0
takes (Consumer.holding at) = 0
