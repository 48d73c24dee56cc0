-- ===== src/Threads/WorkerTests.antt =====
-- thread_t/thread_pool: the queue of the pool on concrete interleavings.
use linux_learning_machine_c.Base.{
  ℕ, ◌≤◌, ◌≡◌, ◌+◌, ◌⊎◌, List, [], ◌∷◌, refl, true, false, arith, total,
}
use linux_learning_machine_c.Threads.Label.{Label, silent, pushes}
use linux_learning_machine_c.Threads.OutBlockQueue.{
  OutBlockQueue, new_out_block_queue, Producer, Consumer, producer, consumer, Run, stop, step, lock,
  begin_store, store, wake_pop,
}
use linux_learning_machine_c.Threads.OutBlockQueue.Order.{forgotten}
use linux_learning_machine_c.Threads.OutBlockQueue.Wakeup.{
  alert, pending, two_threads_hear, one_thread_forgets,
}

-- Two workers have not called `pop` yet, and a caller has put task 7 into the queue.
abbrev one_task : OutBlockQueue ℕ
one_task = record {
  q = 7 ∷ [];
  in_mutex = true;
  out_mutex = false;
  producers = Producer.stored ∷ [];
  consumers = Consumer.outside ∷ Consumer.outside ∷ [];
}

abbrev one_task_labels : List (Label ℕ)
one_task_labels = silent ∷ silent ∷ pushes 7 ∷ []

one_task-Run : Run (new_out_block_queue ℕ 1 2) one_task_labels one_task
one_task-Run =
    step (lock 0 7 refl refl) (step (begin_store 0 7 refl refl) (step (store 0 7 refl) stop))

two_threads_hear_example : 1 ≤ total alert one_task.consumers + total pending one_task.producers
two_threads_hear_example =
    two_threads_hear 1 2 one_task_labels one_task (omega arith) one_task-Run (omega arith)

abbrev woken_up : OutBlockQueue ℕ
woken_up = consumer 0 Consumer.woken (forgotten 7)

one_thread_forgets_example :
    Run
      (new_out_block_queue ℕ 1 1)
      (silent ∷ silent ∷ silent ∷ silent ∷ silent ∷ pushes 7 ∷ silent ∷ silent ∷ silent ∷ [])
      (forgotten 7)
    × ((woken_up ≡ consumer 0 Consumer.woken (forgotten 7))
        ⊎ ((w : ℕ) × (woken_up
              ≡ record (producer 0 (Producer.inside w) (forgotten 7)) { in_mutex = true })))
one_thread_forgets_example = one_thread_forgets 7 silent woken_up (wake_pop 0 refl)
