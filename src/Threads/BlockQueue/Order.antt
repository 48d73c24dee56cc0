-- ===== src/Threads/BlockQueue/Order.antt =====
-- thread_t/block_queue: whatever the interleaving, `block_queue` is a bounded first-in first-out queue,
-- and no thread waits in vain.
use linux_learning_machine_c.Threads.Label.{Label, put_in, bound, all_in, all_bound}
use linux_learning_machine_c.Base.{
  ℕ, ◌+◌, ◌≤◌, ◌<◌, ◌≡◌, refl, sym, ◌∙◌, ap, inl, List, [], ◌∷◌, ◌++◌, append-nil, append_assoc,
  length, total, total-replicate, arith,
}
use linux_learning_machine_c.Threads.BlockQueue.{
  Producer, Consumer, BlockQueue, new_block_queue, waits_for_room, waits_for_item, Step, lock, wait,
  wake, relock, store, signal_item, signal_no_one, unlock, lock_pop, wait_pop, wake_pop, relock_pop,
  take_item, signal_room, signal_no_producer, unlock_pop, Run, stop, step,
}
use linux_learning_machine_c.Threads.BlockQueue.Inv.{IsSafe, Step-IsSafe}
use linux_learning_machine_c.Threads.BlockQueue.Weights.{
  holds, holds_pop, comes, comes_pop, owes_signal, owes_room,
}

module _ {A : Type 0} where
  Step-fifo : (s t : BlockQueue A) (l : Label A) → Step s l t → s.q ++ put_in l ≡ bound l ++ t.q
  Step-fifo s t l (lock i v e f) = append-nil _
  Step-fifo s t l (wait i v e f) = append-nil _
  Step-fifo s t l (wake i v e) = append-nil _
  Step-fifo s t l (relock i v e f) = append-nil _
  Step-fifo s t l (store i v e f) = refl
  Step-fifo s t l (signal_item i j e f) = append-nil _
  Step-fifo s t l (signal_no_one i e f) = append-nil _
  Step-fifo s t l (unlock i e) = append-nil _
  Step-fifo s t l (lock_pop i e f) = append-nil _
  Step-fifo s t l (wait_pop i e f) = append-nil _
  Step-fifo s t l (wake_pop i e) = append-nil _
  Step-fifo s t l (relock_pop i e f) = append-nil _
  Step-fifo s t l (take_item i v rest e f) = append-nil _ ∙ f
  Step-fifo s t l (signal_room i j v e f) = append-nil _
  Step-fifo s t l (signal_no_producer i e f) = append-nil _
  Step-fifo s t l (unlock_pop i e) = append-nil _

  Step-cap : (s t : BlockQueue A) (l : Label A) → Step s l t → t.cap ≡ s.cap
  Step-cap s t l (lock i v e f) = refl
  Step-cap s t l (wait i v e f) = refl
  Step-cap s t l (wake i v e) = refl
  Step-cap s t l (relock i v e f) = refl
  Step-cap s t l (store i v e f) = refl
  Step-cap s t l (signal_item i j e f) = refl
  Step-cap s t l (signal_no_one i e f) = refl
  Step-cap s t l (unlock i e) = refl
  Step-cap s t l (lock_pop i e f) = refl
  Step-cap s t l (wait_pop i e f) = refl
  Step-cap s t l (wake_pop i e) = refl
  Step-cap s t l (relock_pop i e f) = refl
  Step-cap s t l (take_item i v rest e f) = refl
  Step-cap s t l (signal_room i j v e f) = refl
  Step-cap s t l (signal_no_producer i e f) = refl
  Step-cap s t l (unlock_pop i e) = refl

  Run-fifo :
      (s t : BlockQueue A) (ls : List (Label A))
      → Run s ls t
      → IsSafe s
      → (s.q ++ all_in ls ≡ all_bound ls ++ t.q) × (t.cap ≡ s.cap) × IsSafe t
  Run-fifo s t [] stop c = (append-nil _, refl, c)
  Run-fifo s t (l ∷ ls) (step {t = u} x run) c =
      let (rest, size, d) = Run-fifo u t ls run (Step-IsSafe s u l x c) in
      (
        sym (append_assoc s.q (put_in l) (all_in ls))
            ∙ ap (λ xs. xs ++ all_in ls) (Step-fifo s u l x)
            ∙ append_assoc (bound l) u.q (all_in ls)
            ∙ ap (λ xs. bound l ++ xs) rest
            ∙ sym (append_assoc (bound l) (all_bound ls) t.q),
        size ∙ Step-cap s u l x,
        d,
      )

new-IsSafe : (A : Type 0) (cap np nc : ℕ) → IsSafe (new_block_queue A cap np nc)
new-IsSafe A cap np nc =
    let a = total-replicate (holds {A = A}) np Producer.outside refl in
    let b = total-replicate holds_pop nc Consumer.outside refl in
    record {
      bounded = omega arith;
      exclusive = omega (arith, a, b);
      items = inl (total-replicate waits_for_item nc Consumer.outside refl);
      room = inl (total-replicate (waits_for_room {A = A}) np Producer.outside refl);
    }

module _ {A : Type 0} (cap np nc : ℕ) (ls : List (Label A)) (t : BlockQueue A)
    (run : Run (new_block_queue A cap np nc) ls t) where
  -- In every interleaving, the items that `pop` binds its reference to and removes are what was pushed,
  -- in the same order and each once, followed by what the queue holds, and the queue never holds more
  -- than its capacity. (The value does not reach the caller: the reference is to a destroyed item.)
  pub block_queue-fifo : (all_in ls ≡ all_bound ls ++ t.q) × (length t.q ≤ cap)
  block_queue-fifo =
      let (e, size, c) = Run-fifo _ t ls run (new-IsSafe A cap np nc) in
      (e, omega (arith, c.bounded, size))

  -- No wake-up is lost: where a consumer waits although the queue holds an item, another consumer is
  -- on its way to the test of its loop, or a producer is about to signal.
  pub block_queue-items_awaited :
      0 < total waits_for_item t.consumers
      → 0 < length t.q
      → 0 < total comes_pop t.consumers + total owes_signal t.producers
  block_queue-items_awaited waiting work =
      let (e, size, c) = Run-fifo _ t ls run (new-IsSafe A cap np nc) in ground (arith, c.items)

  -- Where a producer waits although the queue has room, another producer is on its way to the test of
  -- its loop, or a consumer is about to signal.
  pub block_queue-room_awaited :
      0 < total waits_for_room t.producers
      → length t.q < cap
      → 0 < total comes t.producers + total owes_room t.consumers
  block_queue-room_awaited waiting work =
      let (e, size, c) = Run-fifo _ t ls run (new-IsSafe A cap np nc) in
      ground (arith, c.room, size)
