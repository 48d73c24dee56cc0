-- ===== src/Threads/OutBlockQueue/Order.antt =====
-- thread_t/thread_pool: the order of the tasks in `out_block_queue`, and the signal that it loses.
use linux_learning_machine_c.Threads.Label.{Label, silent, pushes, put_in, bound, all_in, all_bound}
use linux_learning_machine_c.Base.{
  ℕ, ◌≡◌, refl, sym, ◌∙◌, ap, false, List, [], ◌∷◌, ◌++◌, append-nil, append_assoc,
}
use linux_learning_machine_c.Threads.OutBlockQueue.{
  Producer, Consumer, OutBlockQueue, new_out_block_queue, Step, lock, begin_store, store,
  begin_test, find_item, begin_take, signal, signal_no_one, unlock, lock_pop, test, wait_pop,
  wake_pop, relock_pop, take_item, unlock_pop, Run, stop, step,
}

module _ {A : Type 0} where
  pub Step-order :
      (s t : OutBlockQueue A) (l : Label A) → Step s l t → s.q ++ put_in l ≡ bound l ++ t.q
  Step-order s t l (lock i v e f) = append-nil _
  Step-order s t l (begin_store i v e f) = append-nil _
  Step-order s t l (store i v e) = refl
  Step-order s t l (signal i j e f) = append-nil _
  Step-order s t l (signal_no_one i e f) = append-nil _
  Step-order s t l (unlock i e) = append-nil _
  Step-order s t l (lock_pop i e f) = append-nil _
  Step-order s t l (begin_test i e f) = append-nil _
  Step-order s t l (test i e f) = append-nil _
  Step-order s t l (find_item i e f) = append-nil _
  Step-order s t l (begin_take i e f) = append-nil _
  Step-order s t l (wait_pop i e) = append-nil _
  Step-order s t l (wake_pop i e) = append-nil _
  Step-order s t l (relock_pop i e f) = append-nil _
  Step-order s t l (take_item i v rest e f) = append-nil _ ∙ f
  Step-order s t l (unlock_pop i e) = append-nil _

  Run-order :
      (s t : OutBlockQueue A) (ls : List (Label A))
      → Run s ls t
      → s.q ++ all_in ls ≡ all_bound ls ++ t.q
  Run-order s t [] stop = append-nil _
  Run-order s t (l ∷ ls) (step {t = u} x run) =
      sym (append_assoc s.q (put_in l) (all_in ls))
      ∙ ap (λ xs. xs ++ all_in ls) (Step-order s u l x)
      ∙ append_assoc (bound l) u.q (all_in ls)
      ∙ ap (λ xs. bound l ++ xs) (Run-order u t ls run)
      ∙ sym (append_assoc (bound l) (all_bound ls) t.q)

  -- In every interleaving in which no access to the queue begins during one of the other side, `pop`
  -- binds its references to the tasks in the order in which they went in, to each once.
  pub out_block_queue_order :
      (np nc : ℕ) (ls : List (Label A)) (t : OutBlockQueue A)
      → Run (new_out_block_queue A np nc) ls t
      → all_in ls ≡ all_bound ls ++ t.q
  out_block_queue_order np nc ls t run = Run-order _ t ls run

  -- A task is in the queue, the only worker waits, and the producer has left `push`.
  abbrev pub forgotten : A → OutBlockQueue A
  forgotten v = record {
    q = v ∷ [];
    in_mutex = false;
    out_mutex = false;
    producers = Producer.outside ∷ [];
    consumers = Consumer.waiting ∷ [];
  }

  -- That state is reached: as `push` and `pop` take different mutexes, `push` stores and signals
  -- between the test of `pop` and its wait.
  pub forgotten-Run :
      (v : A)
      → Run
          (new_out_block_queue A 1 1)
          (silent ∷ silent ∷ silent ∷ silent ∷ silent ∷ pushes v ∷ silent ∷ silent ∷ silent ∷ [])
          (forgotten v)
  forgotten-Run v = step (lock_pop 0 refl refl) (
      step (begin_test 0 refl refl) (
        step (test 0 refl refl) (
          step (lock 0 v refl refl) (
            step (begin_store 0 v refl refl) (
              step (store 0 v refl) (
                step (signal_no_one 0 refl refl)
                  (step (unlock 0 refl) (step (wait_pop 0 refl) stop))))))))
