-- ===== src/Threads/BlockTests.antt =====
-- `block_queue` on concrete interleavings.
use linux_learning_machine_c.Base.{
  ℕ, ◌+◌, ◌≤◌, ◌<◌, ◌≡◌, refl, ◌++◌, arith, Bool, List, [], ◌∷◌, length, total,
}
use linux_learning_machine_c.Threads.Label.{Label, silent, pushes, binds, all_in, all_bound}
use linux_learning_machine_c.Threads.BlockQueue.{
  Producer, Consumer, BlockQueue, new_block_queue, lock, wait, store, signal_no_one, unlock,
  lock_pop, wait_pop, take_item, Run, stop, step,
}
use linux_learning_machine_c.Threads.BlockQueue.Weights.{comes_pop, owes_signal}
use linux_learning_machine_c.Threads.BlockQueue.Order.{block_queue-fifo, block_queue-items_awaited}

-- A consumer waits; then a producer stores 5.
abbrev late : BlockQueue ℕ
late = record {
  q = 5 ∷ [];
  cap = 1;
  mutex = Bool.true;
  producers = Producer.stored ∷ [];
  consumers = Consumer.waiting ∷ [];
}

abbrev late_labels : List (Label ℕ)
late_labels = silent ∷ silent ∷ silent ∷ pushes 5 ∷ []

late-Run : Run (new_block_queue ℕ 1 1 1) late_labels late
late-Run =
    step (lock_pop 0 refl refl)
      (step (wait_pop 0 refl refl) (step (lock 0 5 refl refl) (step (store 0 5 refl refl) stop)))

-- A producer waits for room; then a consumer takes 5.
abbrev full : BlockQueue ℕ
full = record {
  q = [];
  cap = 1;
  mutex = Bool.true;
  producers = Producer.outside ∷ Producer.waiting 6 ∷ [];
  consumers = Consumer.took ∷ [];
}

abbrev full_labels : List (Label ℕ)
full_labels = silent ∷ pushes 5 ∷ silent ∷ silent ∷ silent ∷ silent ∷ silent ∷ binds 5 ∷ []

full-Run : Run (new_block_queue ℕ 1 2 1) full_labels full
full-Run = step (lock 0 5 refl refl) (
    step (store 0 5 refl refl) (
      step (signal_no_one 0 refl refl) (
        step (unlock 0 refl) (
          step (lock 1 6 refl refl) (
            step (wait 1 6 refl refl)
              (step (lock_pop 0 refl refl) (step (take_item 0 5 [] refl refl) stop)))))))

block_queue-fifo_example :
    (all_in full_labels ≡ all_bound full_labels ++ full.q) × (length full.q ≤ 1)
block_queue-fifo_example = block_queue-fifo 1 2 1 full_labels full full-Run

block_queue-items_awaited_example :
    0 < total comes_pop late.consumers + total owes_signal late.producers
block_queue-items_awaited_example =
    block_queue-items_awaited 1 1 1 late_labels late late-Run (omega arith) (omega arith)
