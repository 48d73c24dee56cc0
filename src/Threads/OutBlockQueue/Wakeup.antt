-- ===== src/Threads/OutBlockQueue/Wakeup.antt =====
-- thread_t/thread_pool: which tasks in `out_block_queue` a thread in `pop` will look at.
use linux_learning_machine_c.Threads.Label.{Label, silent, pushes}
use linux_learning_machine_c.Base.{
  ℕ, zero, suc, true, some-injective, ◌+◌, ◌≤◌, ◌≡◌, refl, ap, if◌then◌else◌, ◌⊎◌, inl, inr, some,
  List, [], ◌∷◌, length, length-set, length-replicate, set, get_elem?, total, total-set,
  total-replicate, arith,
}
use linux_learning_machine_c.Threads.OutBlockQueue.Order.{forgotten, forgotten-Run}
use linux_learning_machine_c.Threads.OutBlockQueue.{
  Producer, Consumer, OutBlockQueue, new_out_block_queue, waits, producer, consumer, Step, lock,
  begin_store, begin_test, find_item, begin_take, store, signal, signal_no_one, unlock, lock_pop,
  test, wait_pop, wake_pop, relock_pop, take_item, unlock_pop, Run, stop, step,
}

-- A thread that holds `_out_mutex`.
abbrev out_held : Consumer → ℕ
out_held Consumer.outside = 0
out_held Consumer.inside = 1
out_held Consumer.testing = 1
out_held Consumer.saw_empty = 1
out_held Consumer.found = 1
out_held Consumer.taking = 1
out_held Consumer.waiting = 0
out_held Consumer.woken = 0
out_held Consumer.took = 1

-- A thread that tests the queue before it waits, now or in its next call of `pop`.
abbrev pub alert : Consumer → ℕ
alert Consumer.outside = 1
alert Consumer.inside = 1
alert Consumer.testing = 1
alert Consumer.saw_empty = 0
alert Consumer.found = 1
alert Consumer.taking = 1
alert Consumer.waiting = 0
alert Consumer.woken = 1
alert Consumer.took = 1

-- A thread in `push` that has yet to signal.
abbrev pub pending : {A : Type 0} → Producer A → ℕ
pending Producer.outside = 0
pending (Producer.inside v) = 0
pending (Producer.storing v) = 0
pending Producer.stored = 1
pending Producer.signalled = 0

module _ (cs : List Consumer) (i : ℕ) (c c' : Consumer) (e : get_elem? cs i ≡ some c) where
  consumer_moves :
      (total out_held (set cs i c') + out_held c ≡ total out_held cs + out_held c')
      × (total alert (set cs i c') + alert c ≡ total alert cs + alert c')
      × (length (set cs i c') ≡ length cs)
  consumer_moves = (total-set out_held cs i c c' e, total-set alert cs i c c' e, length-set cs i c')

-- A thread waits, is alert, or is the one between the test and the wait.
length-le : (cs : List Consumer) → length cs ≤ total alert cs + total waits cs + total out_held cs
length-le [] = omega arith
length-le (Consumer.outside ∷ cs) = omega (arith, length-le cs)
length-le (Consumer.inside ∷ cs) = omega (arith, length-le cs)
length-le (Consumer.testing ∷ cs) = omega (arith, length-le cs)
length-le (Consumer.found ∷ cs) = omega (arith, length-le cs)
length-le (Consumer.taking ∷ cs) = omega (arith, length-le cs)
length-le (Consumer.saw_empty ∷ cs) = omega (arith, length-le cs)
length-le (Consumer.waiting ∷ cs) = omega (arith, length-le cs)
length-le (Consumer.woken ∷ cs) = omega (arith, length-le cs)
length-le (Consumer.took ∷ cs) = omega (arith, length-le cs)

get_elem?-single {ℓ} :
    {B : Type ℓ} {x y : B} (i : ℕ) → get_elem? (x ∷ []) i ≡ some y → (i ≡ 0) × (x ≡ y)
get_elem?-single zero e = (refl, some-injective e)
get_elem?-single (suc i) e = cc e

module _ {A : Type 0} where
  record IsHeard (s : OutBlockQueue A) : Type 0 where
    exclusive : total out_held s.consumers ≡ (if s.out_mutex then 1 else 0)
    enough : 2 ≤ length s.consumers
    heard : (length s.q ≡ 0) ⊎ (1 ≤ total alert s.consumers + total pending s.producers)

  Step-IsHeard : (s t : OutBlockQueue A) (l : Label A) → Step s l t → IsHeard s → IsHeard t
  Step-IsHeard s t l (lock i v e f) c = ground (
    arith,
    c.exclusive,
    c.enough,
    c.heard,
    total-set pending s.producers i Producer.outside (Producer.inside v) e,
  )
  Step-IsHeard s t l (begin_store i v e f) c = ground (
    arith,
    c.exclusive,
    c.enough,
    c.heard,
    total-set pending s.producers i (Producer.inside v) (Producer.storing v) e,
  )
  Step-IsHeard s t l (store i v e) c = ground (
    arith,
    c.exclusive,
    c.enough,
    total-set pending s.producers i (Producer.storing v) Producer.stored e,
  )
  Step-IsHeard s t l (signal i j e f) c = ground (
    arith,
    c.exclusive,
    c.enough,
    c.heard,
    total-set pending s.producers i Producer.stored Producer.signalled e,
    consumer_moves s.consumers j Consumer.waiting Consumer.woken f,
  )
  Step-IsHeard s t l (signal_no_one i e f) c = ground (
    arith,
    c.exclusive,
    c.enough,
    f,
    length-le s.consumers,
    total-set pending s.producers i Producer.stored Producer.signalled e,
  )
  Step-IsHeard s t l (unlock i e) c = ground (
    arith,
    c.exclusive,
    c.enough,
    c.heard,
    total-set pending s.producers i Producer.signalled Producer.outside e,
  )
  Step-IsHeard s t l (lock_pop i e f) c = ground (
    arith,
    c.exclusive,
    c.enough,
    c.heard,
    consumer_moves s.consumers i Consumer.outside Consumer.inside e,
  )
  Step-IsHeard s t l (test i e f) c = ground (
    arith,
    c.exclusive,
    c.enough,
    f,
    consumer_moves s.consumers i Consumer.testing Consumer.saw_empty e,
  )
  Step-IsHeard s t l (begin_test i e f) c = ground (
    arith,
    c.exclusive,
    c.enough,
    c.heard,
    consumer_moves s.consumers i Consumer.inside Consumer.testing e,
  )
  Step-IsHeard s t l (find_item i e f) c = ground (
    arith,
    c.exclusive,
    c.enough,
    c.heard,
    consumer_moves s.consumers i Consumer.testing Consumer.found e,
  )
  Step-IsHeard s t l (begin_take i e f) c = ground (
    arith,
    c.exclusive,
    c.enough,
    c.heard,
    consumer_moves s.consumers i Consumer.found Consumer.taking e,
  )
  Step-IsHeard s t l (wait_pop i e) c = ground (
    arith,
    c.exclusive,
    c.enough,
    c.heard,
    consumer_moves s.consumers i Consumer.saw_empty Consumer.waiting e,
  )
  Step-IsHeard s t l (wake_pop i e) c = ground (
    arith,
    c.exclusive,
    c.enough,
    c.heard,
    consumer_moves s.consumers i Consumer.waiting Consumer.woken e,
  )
  Step-IsHeard s t l (relock_pop i e f) c = ground (
    arith,
    c.exclusive,
    c.enough,
    c.heard,
    consumer_moves s.consumers i Consumer.woken Consumer.inside e,
  )
  Step-IsHeard s t l (take_item i v rest e f) c = ground (
    arith,
    c.exclusive,
    c.enough,
    ap length f,
    c.heard,
    consumer_moves s.consumers i Consumer.taking Consumer.took e,
  )
  Step-IsHeard s t l (unlock_pop i e) c = ground (
    arith,
    c.exclusive,
    c.enough,
    c.heard,
    consumer_moves s.consumers i Consumer.took Consumer.outside e,
  )

  Run-IsHeard : (s t : OutBlockQueue A) (ls : List (Label A)) → Run s ls t → IsHeard s → IsHeard t
  Run-IsHeard s t [] stop c = c
  Run-IsHeard s t (l ∷ ls) (step {t = u} x run) c = Run-IsHeard u t ls run (Step-IsHeard s u l x c)

  new-IsHeard : (np nc : ℕ) → 2 ≤ nc → IsHeard (new_out_block_queue A np nc)
  new-IsHeard np nc h = record {
    exclusive = total-replicate out_held nc Consumer.outside refl;
    enough = omega (arith, length-replicate nc Consumer.outside);
    heard = inl refl;
  }

  -- In every interleaving in which no access to the queue begins during one of the other side: with two
  -- threads at least that call `pop`, while a task is in the queue one of them tests the
  -- queue before it waits, now or in its next call, or a signal is still to come.
  pub two_threads_hear :
      (np nc : ℕ) (ls : List (Label A)) (t : OutBlockQueue A)
      → 2 ≤ nc
      → Run (new_out_block_queue A np nc) ls t
      → 1 ≤ length t.q
      → 1 ≤ total alert t.consumers + total pending t.producers
  two_threads_hear np nc ls t h run some_task =
      ground (arith, (Run-IsHeard _ t ls run (new-IsHeard np nc h)).heard, some_task)

  -- What changes a task that is forgotten: a spurious wake-up, or another `push`.
  forgotten-Step :
      (v : A) (l : Label A) (t : OutBlockQueue A)
      → Step (forgotten v) l t
      → (t ≡ consumer 0 Consumer.woken (forgotten v))
        ⊎ ((w : A) × (t
              ≡ record (producer 0 (Producer.inside w) (forgotten v)) { in_mutex = true }))
  forgotten-Step v l t (lock i w e f) = inr (w, rw ((get_elem?-single i e).0))
  forgotten-Step v l t (begin_store i w e f) = cc ((get_elem?-single i e).1)
  forgotten-Step v l t (begin_test i e f) = cc ((get_elem?-single i e).1)
  forgotten-Step v l t (find_item i e f) = cc ((get_elem?-single i e).1)
  forgotten-Step v l t (begin_take i e f) = cc ((get_elem?-single i e).1)
  forgotten-Step v l t (store i w e) = cc ((get_elem?-single i e).1)
  forgotten-Step v l t (signal i j e f) = cc ((get_elem?-single i e).1)
  forgotten-Step v l t (signal_no_one i e f) = cc ((get_elem?-single i e).1)
  forgotten-Step v l t (unlock i e) = cc ((get_elem?-single i e).1)
  forgotten-Step v l t (lock_pop i e f) = cc ((get_elem?-single i e).1)
  forgotten-Step v l t (test i e f) = cc ((get_elem?-single i e).1)
  forgotten-Step v l t (wait_pop i e) = cc ((get_elem?-single i e).1)
  forgotten-Step v l t (wake_pop i e) = inl (rw ((get_elem?-single i e).0))
  forgotten-Step v l t (relock_pop i e f) = cc ((get_elem?-single i e).1)
  forgotten-Step v l t (take_item i w rest e f) = cc ((get_elem?-single i e).1)
  forgotten-Step v l t (unlock_pop i e) = cc ((get_elem?-single i e).1)

  -- With one thread that calls `pop`, a task is forgotten: `push` stores and signals between the test
  -- of `pop` and its wait, and each step from then on is a spurious wake-up or another `push`.
  pub one_thread_forgets :
      (v : A) (l : Label A) (t : OutBlockQueue A)
      → Step (forgotten v) l t
      → Run
          (new_out_block_queue A 1 1)
          (silent ∷ silent ∷ silent ∷ silent ∷ silent ∷ pushes v ∷ silent ∷ silent ∷ silent ∷ [])
          (forgotten v)
        × ((t ≡ consumer 0 Consumer.woken (forgotten v))
            ⊎ ((w : A) × (t
                  ≡ record (producer 0 (Producer.inside w) (forgotten v)) { in_mutex = true })))
  one_thread_forgets v l t x = (forgotten-Run v, forgotten-Step v l t x)
