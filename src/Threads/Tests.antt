-- ===== src/Threads/Tests.antt =====
-- The queues of thread_t on concrete interleavings.
use linux_learning_machine_c.Base.{
  ℕ, ◌≡◌, refl, ◌++◌, ◌≤◌, arith, List, [], ◌∷◌, length, total, Bool, get_elem?, some,
}
use linux_learning_machine_c.Threads.Label.{Label, silent, pushes, binds, reads, all_in, all_bound}
use linux_learning_machine_c.Threads.RingQueue.{
  RingQueue, Producer, Consumer, consumer, Step, Run, stop, step, claim, lock, store, unlock, post,
  claim_item, lock_item, take_item, unlock_item, post_room, new_ring_queue,
}
use linux_learning_machine_c.Threads.RingQueue.Weights.{stores, takes}
use linux_learning_machine_c.Threads.RingQueue.Reads.{reads_stored}
use linux_learning_machine_c.Threads.RingQueue.Fifo.{
  contents, ring_queue-fifo, ring_queue_exclusive,
}

-- A ring of one, with two producers and one consumer; 5 goes in and out, and 6 follows.
abbrev labels : List (Label ℕ)
labels =
    silent
    ∷ silent
    ∷ pushes 5
    ∷ silent
    ∷ silent
    ∷ silent
    ∷ silent
    ∷ binds 5
    ∷ silent
    ∷ silent
    ∷ silent
    ∷ silent
    ∷ pushes 6
    ∷ []

-- The state of the ring at the end: the reference that `pop` returned stands for 6 by now.
abbrev overwritten : RingQueue ℕ
overwritten = record {
  q = 6 ∷ [];
  cap = 1;
  read = 0;
  write = 0;
  rpos = 1;
  wpos = 2;
  pmutex = Bool.true;
  vmutex = Bool.false;
  producers = Producer.idle ∷ Producer.stored ∷ [];
  consumers = Consumer.holding 0 ∷ [];
}

overwritten-Run : Run 0 (new_ring_queue 0 1 2 1) labels overwritten
overwritten-Run = step (claim 0 5 refl refl) (
    step (lock 0 5 refl refl) (
      step (store 0 5 refl) (
        step (unlock 0 refl) (
          step (post 0 refl) (
            step (claim_item 0 refl refl) (
              step (lock_item 0 refl refl) (
                step (take_item 0 refl) (
                  step (unlock_item 0 0 refl) (
                    step (post_room 0 0 refl) (
                      step (claim 1 6 refl refl)
                        (step (lock 1 6 refl refl) (step (store 1 6 refl) stop))))))))))))

ring_queue-fifo_example :
    (all_in labels ≡ all_bound labels ++ contents 0 overwritten)
    × (length (contents 0 overwritten) ≤ overwritten.cap)
ring_queue-fifo_example = ring_queue-fifo 0 1 2 1 labels overwritten overwritten-Run (omega arith)

-- After the first ten of these steps the caller can still read 5 through its reference.
abbrev returned_labels : List (Label ℕ)
returned_labels =
    silent ∷ silent ∷ pushes 5 ∷ silent ∷ silent ∷ silent ∷ silent ∷ binds 5 ∷ silent ∷ silent ∷ []

abbrev just_returned : RingQueue ℕ
just_returned = record {
  q = 5 ∷ [];
  cap = 1;
  read = 0;
  write = 1;
  rpos = 1;
  wpos = 1;
  pmutex = Bool.false;
  vmutex = Bool.false;
  producers = Producer.idle ∷ Producer.idle ∷ [];
  consumers = Consumer.holding 0 ∷ [];
}

just_returned-Run : Run 0 (new_ring_queue 0 1 2 1) returned_labels just_returned
just_returned-Run = step (claim 0 5 refl refl) (
    step (lock 0 5 refl refl) (
      step (store 0 5 refl) (
        step (unlock 0 refl) (
          step (post 0 refl) (
            step (claim_item 0 refl refl) (
              step (lock_item 0 refl refl) (
                step (take_item 0 refl)
                  (step (unlock_item 0 0 refl) (step (post_room 0 0 refl) stop)))))))))

reads_stored_example :
    (v : ℕ) × Step 0 just_returned (reads v) (consumer 0 0 Consumer.idle just_returned)
    × (get_elem? (all_in returned_labels) 0 ≡ some v)
reads_stored_example =
    reads_stored 0 1 2 1 0 0 returned_labels just_returned just_returned-Run (omega arith) refl
      (omega arith)

ring_queue_exclusive_example :
    (total stores overwritten.producers ≤ 1) × (total takes overwritten.consumers ≤ 1)
ring_queue_exclusive_example =
    ring_queue_exclusive 0 1 2 1 labels overwritten overwritten-Run (omega arith)
