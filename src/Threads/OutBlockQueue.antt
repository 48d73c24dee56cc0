-- ===== src/Threads/OutBlockQueue.antt =====
-- thread_t/thread_pool/out_block_queue.hpp: `out_block_queue`, the queue of the thread pool, and the
-- threads that call `push` and `pop`. `push` and `pop` hold different mutexes, so an access to the queue
-- has a beginning and an end, and an access that begins during another is undefined.
pub mod Order
pub mod Wakeup
use linux_learning_machine_c.Threads.Label.{Label, silent, pushes, binds}
use linux_learning_machine_c.Base.{
  ℕ, ◌==◌, ◌≡◌, ◌≢◌, Bool, true, false, some, List, [], ◌∷◌, ◌++◌, get_elem?, set, replicate,
  length, total,
}

-- A thread in `push(data)`: `inside` holds `_in_mutex`; `storing` is in `_q.push`; `stored` has yet to
-- signal.
pub data Producer (A : Type 0) : Type 0 where
  outside : Producer A
  inside : A → Producer A
  storing : A → Producer A
  stored : Producer A
  signalled : Producer A

-- A thread in `pop`: `inside` is at the test of the loop, with `_out_mutex`; `testing` is in the test;
-- `saw_empty` is between the test and the wait; `found` is behind the loop; `taking` is in `_q.front`
-- and `_q.pop`; `woken` waits for the mutex. What `pop` returns is a reference to the item that
-- `_q.pop` has destroyed.
pub data Consumer : Type 0 where
  outside inside testing saw_empty found taking waiting woken took : Consumer

pub record OutBlockQueue (A : Type 0) : Type 0 where
  pub q : List A
  pub in_mutex : Bool
  pub out_mutex : Bool
  pub producers : List (Producer A)
  pub consumers : List Consumer

-- The constructor, with threads that have called nothing.
abbrev pub new_out_block_queue : (A : Type 0) → ℕ → ℕ → OutBlockQueue A
new_out_block_queue A producers consumers = record {
  q = [];
  in_mutex = false;
  out_mutex = false;
  producers = replicate producers Producer.outside;
  consumers = replicate consumers Consumer.outside;
}

abbrev pub is_empty : {A : Type 0} → OutBlockQueue A → Bool
is_empty s = length s.q == 0

-- One for a thread that waits for the condition.
abbrev pub waits : Consumer → ℕ
waits Consumer.outside = 0
waits Consumer.inside = 0
waits Consumer.testing = 0
waits Consumer.found = 0
waits Consumer.taking = 0
waits Consumer.saw_empty = 0
waits Consumer.waiting = 1
waits Consumer.woken = 0
waits Consumer.took = 0

-- One for a thread that is accessing the queue.
abbrev pub accesses : Consumer → ℕ
accesses Consumer.outside = 0
accesses Consumer.inside = 0
accesses Consumer.testing = 1
accesses Consumer.saw_empty = 0
accesses Consumer.found = 0
accesses Consumer.taking = 1
accesses Consumer.waiting = 0
accesses Consumer.woken = 0
accesses Consumer.took = 0

abbrev pub stores : {A : Type 0} → Producer A → ℕ
stores Producer.outside = 0
stores (Producer.inside v) = 0
stores (Producer.storing v) = 1
stores Producer.stored = 0
stores Producer.signalled = 0

module _ {A : Type 0} where
  abbrev pub producer : ℕ → Producer A → OutBlockQueue A → OutBlockQueue A
  producer i p s = record s { producers = set s.producers i p }

  abbrev pub consumer : ℕ → Consumer → OutBlockQueue A → OutBlockQueue A
  consumer i c s = record s { consumers = set s.consumers i c }

  -- A signal wakes one of the threads that wait, or nobody if none waits.
  pub data Step (s : OutBlockQueue A) : Label A → OutBlockQueue A → Type 0 where
    lock :
        (i : ℕ) (v : A)
        → get_elem? s.producers i ≡ some Producer.outside
        → s.in_mutex ≡ false
        → Step s silent (record (producer i (Producer.inside v) s) { in_mutex = true })
    begin_store :
        (i : ℕ) (v : A)
        → get_elem? s.producers i ≡ some (Producer.inside v)
        → total accesses s.consumers ≡ 0
        → Step s silent (producer i (Producer.storing v) s)
    store :
        (i : ℕ) (v : A)
        → get_elem? s.producers i ≡ some (Producer.storing v)
        → Step s (pushes v) (record (producer i Producer.stored s) { q = s.q ++ v ∷ [] })
    signal :
        (i j : ℕ)
        → get_elem? s.producers i ≡ some Producer.stored
        → get_elem? s.consumers j ≡ some Consumer.waiting
        → Step s silent (consumer j Consumer.woken (producer i Producer.signalled s))
    signal_no_one :
        (i : ℕ)
        → get_elem? s.producers i ≡ some Producer.stored
        → total waits s.consumers ≡ 0
        → Step s silent (producer i Producer.signalled s)
    unlock :
        (i : ℕ)
        → get_elem? s.producers i ≡ some Producer.signalled
        → Step s silent (record (producer i Producer.outside s) { in_mutex = false })
    lock_pop :
        (i : ℕ)
        → get_elem? s.consumers i ≡ some Consumer.outside
        → s.out_mutex ≡ false
        → Step s silent (record (consumer i Consumer.inside s) { out_mutex = true })
    begin_test :
        (i : ℕ)
        → get_elem? s.consumers i ≡ some Consumer.inside
        → total stores s.producers ≡ 0
        → Step s silent (consumer i Consumer.testing s)
    test :
        (i : ℕ)
        → get_elem? s.consumers i ≡ some Consumer.testing
        → is_empty s ≡ true
        → Step s silent (consumer i Consumer.saw_empty s)
    find_item :
        (i : ℕ)
        → get_elem? s.consumers i ≡ some Consumer.testing
        → is_empty s ≡ false
        → Step s silent (consumer i Consumer.found s)
    begin_take :
        (i : ℕ)
        → get_elem? s.consumers i ≡ some Consumer.found
        → total stores s.producers ≡ 0
        → Step s silent (consumer i Consumer.taking s)
    wait_pop :
        (i : ℕ)
        → get_elem? s.consumers i ≡ some Consumer.saw_empty
        → Step s silent (record (consumer i Consumer.waiting s) { out_mutex = false })
    wake_pop :
        (i : ℕ)
        → get_elem? s.consumers i ≡ some Consumer.waiting
        → Step s silent (consumer i Consumer.woken s)
    relock_pop :
        (i : ℕ)
        → get_elem? s.consumers i ≡ some Consumer.woken
        → s.out_mutex ≡ false
        → Step s silent (record (consumer i Consumer.inside s) { out_mutex = true })
    take_item :
        (i : ℕ) (v : A) (rest : List A)
        → get_elem? s.consumers i ≡ some Consumer.taking
        → s.q ≡ v ∷ rest
        → Step s (binds v) (record (consumer i Consumer.took s) { q = rest })
    unlock_pop :
        (i : ℕ)
        → get_elem? s.consumers i ≡ some Consumer.took
        → Step s silent (record (consumer i Consumer.outside s) { out_mutex = false })

  -- What is undefined: an access that begins during one of the other side. (Each use of the
  -- reference that `pop` returned is, too; it is no step of the queue.)
  pub data Undefined (s : OutBlockQueue A) : Type 0 where
    store_overlaps :
        (i : ℕ) (v : A)
        → get_elem? s.producers i ≡ some (Producer.inside v)
        → total accesses s.consumers ≢ 0
        → Undefined s
    test_overlaps :
        (i : ℕ)
        → get_elem? s.consumers i ≡ some Consumer.inside
        → total stores s.producers ≢ 0
        → Undefined s
    take_overlaps :
        (i : ℕ)
        → get_elem? s.consumers i ≡ some Consumer.found
        → total stores s.producers ≢ 0
        → Undefined s

  -- An interleaving in which nothing undefined is done.
  pub data Run : OutBlockQueue A → List (Label A) → OutBlockQueue A → Type 0 where
    stop : {s : OutBlockQueue A} → Run s [] s
    step :
        {l : Label A} {ls : List (Label A)} {s t u : OutBlockQueue A}
        → Step s l t
        → Run t ls u
        → Run s (l ∷ ls) u
