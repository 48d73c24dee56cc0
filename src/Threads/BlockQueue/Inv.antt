-- ===== src/Threads/BlockQueue/Inv.antt =====
-- thread_t/block_queue: what the mutex and the two conditions of `block_queue` guarantee.
use linux_learning_machine_c.Threads.Label.{Label}
use linux_learning_machine_c.Base.{
  ℕ, ◌+◌, ◌≤◌, ◌≡◌, ap, if◌then◌else◌, ◌⊎◌, some, List, [], ◌∷◌, length, length-append, set,
  get_elem?, total, total-set, arith,
}
use linux_learning_machine_c.Threads.BlockQueue.Weights.{
  holds, holds_pop, comes, comes_pop, owes_signal, owes_room,
}
use linux_learning_machine_c.Threads.BlockQueue.{
  Producer, Consumer, BlockQueue, waits_for_room, waits_for_item, Step, lock, wait, wake, relock,
  store, signal_item, signal_no_one, unlock, lock_pop, wait_pop, wake_pop, relock_pop, take_item,
  signal_room, signal_no_producer, unlock_pop,
}

-- Where a thread waits, the threads that are on their way, or will be signalled, are enough for all
-- that there is to do.
abbrev pub Awaited : ℕ → ℕ → ℕ → Type 0
Awaited waiting work coming = (waiting ≡ 0) ⊎ (work ≤ coming)

pub record IsSafe {A : Type 0} (s : BlockQueue A) : Type 0 where
  pub bounded : length s.q ≤ s.cap
  pub exclusive : total holds s.producers + total holds_pop s.consumers ≡ (if s.mutex then 1 else 0)
  pub items :
      Awaited
        (total waits_for_item s.consumers)
        (length s.q)
        (total comes_pop s.consumers + total owes_signal s.producers)
  pub room :
      Awaited
        (total waits_for_room s.producers)
        s.cap
        (length s.q + total comes s.producers + total owes_room s.consumers)

module _ {A : Type 0} (ps : List (Producer A)) (i : ℕ) (p p' : Producer A)
    (e : get_elem? ps i ≡ some p) where
  -- How a step of a producer moves the four sums.
  producer_moves :
      (total holds (set ps i p') + holds p ≡ total holds ps + holds p')
      × (total comes (set ps i p') + comes p ≡ total comes ps + comes p')
      × (total owes_signal (set ps i p') + owes_signal p ≡ total owes_signal ps + owes_signal p')
      × (total waits_for_room (set ps i p') + waits_for_room p
          ≡ total waits_for_room ps + waits_for_room p')
  producer_moves = (
    total-set holds ps i p p' e,
    total-set comes ps i p p' e,
    total-set owes_signal ps i p p' e,
    total-set waits_for_room ps i p p' e,
  )

module _ (cs : List Consumer) (i : ℕ) (c c' : Consumer) (e : get_elem? cs i ≡ some c) where
  consumer_moves :
      (total holds_pop (set cs i c') + holds_pop c ≡ total holds_pop cs + holds_pop c')
      × (total comes_pop (set cs i c') + comes_pop c ≡ total comes_pop cs + comes_pop c')
      × (total owes_room (set cs i c') + owes_room c ≡ total owes_room cs + owes_room c')
      × (total waits_for_item (set cs i c') + waits_for_item c
          ≡ total waits_for_item cs + waits_for_item c')
  consumer_moves = (
    total-set holds_pop cs i c c' e,
    total-set comes_pop cs i c c' e,
    total-set owes_room cs i c c' e,
    total-set waits_for_item cs i c c' e,
  )

module _ {A : Type 0} where
  pub Step-IsSafe : (s t : BlockQueue A) (l : Label A) → Step s l t → IsSafe s → IsSafe t
  Step-IsSafe s t l (lock i v e f) c = ground (
    arith,
    c.bounded,
    c.exclusive,
    c.items,
    c.room,
    producer_moves s.producers i Producer.outside (Producer.inside v) e,
  )
  Step-IsSafe s t l (wait i v e f) c = ground (
    arith,
    c.bounded,
    c.exclusive,
    c.items,
    c.room,
    producer_moves s.producers i (Producer.inside v) (Producer.waiting v) e,
  )
  Step-IsSafe s t l (wake i v e) c = ground (
    arith,
    c.bounded,
    c.exclusive,
    c.items,
    c.room,
    producer_moves s.producers i (Producer.waiting v) (Producer.woken v) e,
  )
  Step-IsSafe s t l (relock i v e f) c = ground (
    arith,
    c.bounded,
    c.exclusive,
    c.items,
    c.room,
    producer_moves s.producers i (Producer.woken v) (Producer.inside v) e,
  )
  Step-IsSafe s t l (store i v e f) c = ground (
    arith,
    c.bounded,
    c.exclusive,
    c.items,
    c.room,
    producer_moves s.producers i (Producer.inside v) Producer.stored e,
    length-append s.q (v ∷ []),
  )
  Step-IsSafe s t l (signal_item i j e f) c = ground (
    arith,
    c.bounded,
    c.exclusive,
    c.items,
    c.room,
    producer_moves s.producers i Producer.stored Producer.signalled e,
    consumer_moves s.consumers j Consumer.waiting Consumer.woken f,
  )
  Step-IsSafe s t l (signal_no_one i e f) c = ground (
    arith,
    c.bounded,
    c.exclusive,
    c.items,
    c.room,
    producer_moves s.producers i Producer.stored Producer.signalled e,
  )
  Step-IsSafe s t l (unlock i e) c = ground (
    arith,
    c.bounded,
    c.exclusive,
    c.items,
    c.room,
    producer_moves s.producers i Producer.signalled Producer.outside e,
  )
  Step-IsSafe s t l (lock_pop i e f) c = ground (
    arith,
    c.bounded,
    c.exclusive,
    c.items,
    c.room,
    consumer_moves s.consumers i Consumer.outside Consumer.inside e,
  )
  Step-IsSafe s t l (wait_pop i e f) c = ground (
    arith,
    c.bounded,
    c.exclusive,
    c.items,
    c.room,
    consumer_moves s.consumers i Consumer.inside Consumer.waiting e,
  )
  Step-IsSafe s t l (wake_pop i e) c = ground (
    arith,
    c.bounded,
    c.exclusive,
    c.items,
    c.room,
    consumer_moves s.consumers i Consumer.waiting Consumer.woken e,
  )
  Step-IsSafe s t l (relock_pop i e f) c = ground (
    arith,
    c.bounded,
    c.exclusive,
    c.items,
    c.room,
    consumer_moves s.consumers i Consumer.woken Consumer.inside e,
  )
  Step-IsSafe s t l (take_item i v rest e f) c = ground (
    arith,
    c.bounded,
    c.exclusive,
    c.items,
    c.room,
    consumer_moves s.consumers i Consumer.inside Consumer.took e,
    ap length f,
  )
  Step-IsSafe s t l (signal_room i j v e f) c = ground (
    arith,
    c.bounded,
    c.exclusive,
    c.items,
    c.room,
    consumer_moves s.consumers i Consumer.took Consumer.signalled e,
    producer_moves s.producers j (Producer.waiting v) (Producer.woken v) f,
  )
  Step-IsSafe s t l (signal_no_producer i e f) c = ground (
    arith,
    c.bounded,
    c.exclusive,
    c.items,
    c.room,
    consumer_moves s.consumers i Consumer.took Consumer.signalled e,
  )
  Step-IsSafe s t l (unlock_pop i e) c = ground (
    arith,
    c.bounded,
    c.exclusive,
    c.items,
    c.room,
    consumer_moves s.consumers i Consumer.signalled Consumer.outside e,
  )
