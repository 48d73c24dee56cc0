-- ===== src/Threads/BlockQueue/Weights.antt =====
-- thread_t/block_queue: what a thread of `block_queue` stands for in the counts.
use linux_learning_machine_c.Base.{ℕ}
use linux_learning_machine_c.Threads.BlockQueue.{Producer, Consumer}

-- A producer that holds the mutex, one on its way to the test, and one that has yet to signal.
abbrev pub holds : {A : Type 0} → Producer A → ℕ
holds Producer.outside = 0
holds (Producer.inside v) = 1
holds (Producer.waiting v) = 0
holds (Producer.woken v) = 0
holds Producer.stored = 1
holds Producer.signalled = 1

abbrev pub comes : {A : Type 0} → Producer A → ℕ
comes Producer.outside = 0
comes (Producer.inside v) = 1
comes (Producer.waiting v) = 0
comes (Producer.woken v) = 1
comes Producer.stored = 0
comes Producer.signalled = 0

abbrev pub owes_signal : {A : Type 0} → Producer A → ℕ
owes_signal Producer.outside = 0
owes_signal (Producer.inside v) = 0
owes_signal (Producer.waiting v) = 0
owes_signal (Producer.woken v) = 0
owes_signal Producer.stored = 1
owes_signal Producer.signalled = 0

-- The same of consumers.
abbrev pub holds_pop : Consumer → ℕ
holds_pop Consumer.outside = 0
holds_pop Consumer.inside = 1
holds_pop Consumer.waiting = 0
holds_pop Consumer.woken = 0
holds_pop Consumer.took = 1
holds_pop Consumer.signalled = 1

abbrev pub comes_pop : Consumer → ℕ
comes_pop Consumer.outside = 0
comes_pop Consumer.inside = 1
comes_pop Consumer.waiting = 0
comes_pop Consumer.woken = 1
comes_pop Consumer.took = 0
comes_pop Consumer.signalled = 0

abbrev pub owes_room : Consumer → ℕ
owes_room Consumer.outside = 0
owes_room Consumer.inside = 0
owes_room Consumer.waiting = 0
owes_room Consumer.woken = 0
owes_room Consumer.took = 1
owes_room Consumer.signalled = 0
