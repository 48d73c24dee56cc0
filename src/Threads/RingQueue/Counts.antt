-- ===== src/Threads/RingQueue/Counts.antt =====
-- thread_t/ring_queue: the semaphores of `ring_queue` count its items and its room, and its mutexes
-- keep the positions to one thread each.
use native.Mathlib.Nat.{mod-eq_of_lt}
use linux_learning_machine_c.Threads.Label.{Label}
use linux_learning_machine_c.Base.{
  ℕ, suc, ◌+◌, ◌%◌, ◌^◌, ◌<◌, ◌≡◌, Bool, if◌then◌else◌, some, List, length, length-set, set,
  get_elem?, total, total-set, arith,
}
use linux_learning_machine_c.Threads.RingQueue.Weights.{
  has_room, has_stored, stores, has_item, has_taken, takes,
}
use linux_learning_machine_c.Threads.RingQueue.{
  Producer, Consumer, RingQueue, next, Step, claim, lock, store, unlock, post, claim_item,
  lock_item, take_item, unlock_item, post_room, release,
}

-- One if the mutex is locked.
abbrev pub holders : Bool → ℕ
holders b = if b then 1 else 0

-- Items are those that the reading semaphore counts, with those that a producer has not posted and
-- those that a consumer has claimed; the rest of the ring is counted likewise.
pub record IsConsistent {A : Type 0} (s : RingQueue A) : Type 0 where
  pub size : length s.q ≡ s.cap
  pub items : s.wpos ≡ s.rpos + (s.read + total has_stored s.producers + total has_item s.consumers)
  pub room :
      (s.write + total has_room s.producers)
        + (s.read + total has_stored s.producers + total has_item s.consumers)
        + total has_taken s.consumers
      ≡ s.cap
  pub one_storing : total stores s.producers ≡ holders s.pmutex
  pub one_taking : total takes s.consumers ≡ holders s.vmutex

module _ {A : Type 0} (ps : List (Producer A)) (i : ℕ) (p p' : Producer A)
    (e : get_elem? ps i ≡ some p) where
  -- How a step of a producer moves the three sums.
  pub producer_moves :
      (total has_room (set ps i p') + has_room p ≡ total has_room ps + has_room p')
      × (total has_stored (set ps i p') + has_stored p ≡ total has_stored ps + has_stored p')
      × (total stores (set ps i p') + stores p ≡ total stores ps + stores p')
  producer_moves = (
    total-set has_room ps i p p' e,
    total-set has_stored ps i p p' e,
    total-set stores ps i p p' e,
  )

module _ (cs : List Consumer) (i : ℕ) (c c' : Consumer) (e : get_elem? cs i ≡ some c) where
  pub consumer_moves :
      (total has_item (set cs i c') + has_item c ≡ total has_item cs + has_item c')
      × (total has_taken (set cs i c') + has_taken c ≡ total has_taken cs + has_taken c')
      × (total takes (set cs i c') + takes c ≡ total takes cs + takes c')
  consumer_moves =
      (total-set has_item cs i c c' e, total-set has_taken cs i c c' e, total-set takes cs i c c' e)

-- Below the largest `size_t`, `++` adds one.
pub next-suc : (n : ℕ) → suc n < 2 ^ 64 → next n ≡ suc n
next-suc n h = omega (arith, mod-eq_of_lt {n = n + 1} {m = 2 ^ 64} (omega arith))

module _ {A : Type 0} (blank : A) where
  pub Step-IsConsistent :
      (s t : RingQueue A) (l : Label A)
      → Step blank s l t
      → suc s.wpos < 2 ^ 64
      → IsConsistent s
      → IsConsistent t
  Step-IsConsistent s t l (claim i v {n} e f) small c = ground (
    arith,
    c.size,
    c.items,
    c.room,
    c.one_storing,
    c.one_taking,
    producer_moves s.producers i Producer.idle (Producer.claimed v) e,
    f,
  )
  Step-IsConsistent s t l (lock i v e f) small c = ground (
    arith,
    c.size,
    c.items,
    c.room,
    c.one_storing,
    c.one_taking,
    producer_moves s.producers i (Producer.claimed v) (Producer.locked v) e,
  )
  Step-IsConsistent s t l (store i v e) small c = ground (
    arith,
    c.size,
    c.items,
    c.room,
    c.one_storing,
    c.one_taking,
    producer_moves s.producers i (Producer.locked v) Producer.stored e,
    next-suc s.wpos small,
    length-set s.q (s.wpos % s.cap) v,
  )
  Step-IsConsistent s t l (unlock i e) small c = ground (
    arith,
    c.size,
    c.items,
    c.room,
    c.one_storing,
    c.one_taking,
    producer_moves s.producers i Producer.stored Producer.unlocked e,
  )
  Step-IsConsistent s t l (post i e) small c = ground (
    arith,
    c.size,
    c.items,
    c.room,
    c.one_storing,
    c.one_taking,
    producer_moves s.producers i Producer.unlocked Producer.idle e,
  )
  Step-IsConsistent s t l (claim_item i {n} e f) small c = ground (
    arith,
    c.size,
    c.items,
    c.room,
    c.one_storing,
    c.one_taking,
    consumer_moves s.consumers i Consumer.idle Consumer.claimed e,
    f,
  )
  Step-IsConsistent s t l (lock_item i e f) small c = ground (
    arith,
    c.size,
    c.items,
    c.room,
    c.one_storing,
    c.one_taking,
    consumer_moves s.consumers i Consumer.claimed Consumer.locked e,
  )
  Step-IsConsistent s t l (take_item i e) small c = ground (
    arith,
    c.size,
    c.items,
    c.room,
    c.one_storing,
    c.one_taking,
    consumer_moves s.consumers i Consumer.locked (Consumer.took s.rpos) e,
    next-suc s.rpos (omega (arith, c.items)),
  )
  Step-IsConsistent s t l (unlock_item i at e) small c = ground (
    arith,
    c.size,
    c.items,
    c.room,
    c.one_storing,
    c.one_taking,
    consumer_moves s.consumers i (Consumer.took at) (Consumer.unlocked at) e,
  )
  Step-IsConsistent s t l (post_room i at e) small c = ground (
    arith,
    c.size,
    c.items,
    c.room,
    c.one_storing,
    c.one_taking,
    consumer_moves s.consumers i (Consumer.unlocked at) (Consumer.holding at) e,
  )
  Step-IsConsistent s t l (release i at e) small c = ground (
    arith,
    c.size,
    c.items,
    c.room,
    c.one_storing,
    c.one_taking,
    consumer_moves s.consumers i (Consumer.holding at) Consumer.idle e,
  )
