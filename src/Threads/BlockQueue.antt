-- ===== src/Threads/BlockQueue.antt =====
-- thread_t/block_queue/block_queue.hpp: `block_queue` and the threads that call `push` and `pop`.
-- The test of a loop is one step with what follows it, as the thread holds the mutex. `pop` binds a
-- reference to the front, destroys the front and returns the reference, whose every use is undefined;
-- so a step tells which item `pop` removed, and no step gives its value to the caller.
pub mod Weights
pub mod Inv
pub mod Order
use linux_learning_machine_c.Threads.Label.{Label, silent, pushes, binds}
use linux_learning_machine_c.Base.{
  ℕ, ◌==◌, ◌≡◌, ◌≢◌, Bool, true, false, Option, some, List, [], ◌∷◌, ◌++◌, get_elem?, set,
  replicate, length, total,
}

-- A thread in `push(data)`. `inside` is at the test of the loop, with the mutex; `waiting` waits for
-- the condition `_in_cond`; `woken` waits for the mutex; `stored` has yet to signal `_out_cond`.
pub data Producer (A : Type 0) : Type 0 where
  outside : Producer A
  inside : A → Producer A
  waiting : A → Producer A
  woken : A → Producer A
  stored : Producer A
  signalled : Producer A

-- A thread in `pop`, likewise.
pub data Consumer : Type 0 where
  outside inside waiting woken took signalled : Consumer

pub record BlockQueue (A : Type 0) : Type 0 where
  pub q : List A
  pub cap : ℕ
  pub mutex : Bool
  pub producers : List (Producer A)
  pub consumers : List Consumer

-- `block_queue(cap)`, with threads that have called nothing.
abbrev pub new_block_queue : (A : Type 0) → ℕ → ℕ → ℕ → BlockQueue A
new_block_queue A cap producers consumers = record {
  q = [];
  cap = cap;
  mutex = false;
  producers = replicate producers Producer.outside;
  consumers = replicate consumers Consumer.outside;
}

abbrev pub is_empty : {A : Type 0} → BlockQueue A → Bool
is_empty s = length s.q == 0

abbrev pub is_full : {A : Type 0} → BlockQueue A → Bool
is_full s = length s.q == s.cap

-- One for a thread that waits for its condition.
abbrev pub waits_for_room : {A : Type 0} → Producer A → ℕ
waits_for_room Producer.outside = 0
waits_for_room (Producer.inside v) = 0
waits_for_room (Producer.waiting v) = 1
waits_for_room (Producer.woken v) = 0
waits_for_room Producer.stored = 0
waits_for_room Producer.signalled = 0

abbrev pub waits_for_item : Consumer → ℕ
waits_for_item Consumer.outside = 0
waits_for_item Consumer.inside = 0
waits_for_item Consumer.waiting = 1
waits_for_item Consumer.woken = 0
waits_for_item Consumer.took = 0
waits_for_item Consumer.signalled = 0

module _ {A : Type 0} where
  abbrev pub producer : ℕ → Producer A → BlockQueue A → BlockQueue A
  producer i p s = record s { producers = set s.producers i p }

  abbrev pub consumer : ℕ → Consumer → BlockQueue A → BlockQueue A
  consumer i c s = record s { consumers = set s.consumers i c }

  -- A signal wakes one of the threads that wait, or nobody if none waits; a thread may also wake for
  -- no reason.
  pub data Step (s : BlockQueue A) : Label A → BlockQueue A → Type 0 where
    lock :
        (i : ℕ) (v : A)
        → get_elem? s.producers i ≡ some Producer.outside
        → s.mutex ≡ false
        → Step s silent (record (producer i (Producer.inside v) s) { mutex = true })
    wait :
        (i : ℕ) (v : A)
        → get_elem? s.producers i ≡ some (Producer.inside v)
        → is_full s ≡ true
        → Step s silent (record (producer i (Producer.waiting v) s) { mutex = false })
    wake :
        (i : ℕ) (v : A)
        → get_elem? s.producers i ≡ some (Producer.waiting v)
        → Step s silent (producer i (Producer.woken v) s)
    relock :
        (i : ℕ) (v : A)
        → get_elem? s.producers i ≡ some (Producer.woken v)
        → s.mutex ≡ false
        → Step s silent (record (producer i (Producer.inside v) s) { mutex = true })
    store :
        (i : ℕ) (v : A)
        → get_elem? s.producers i ≡ some (Producer.inside v)
        → is_full s ≡ false
        → Step s (pushes v) (record (producer i Producer.stored s) { q = s.q ++ v ∷ [] })
    signal_item :
        (i j : ℕ)
        → get_elem? s.producers i ≡ some Producer.stored
        → get_elem? s.consumers j ≡ some Consumer.waiting
        → Step s silent (consumer j Consumer.woken (producer i Producer.signalled s))
    signal_no_one :
        (i : ℕ)
        → get_elem? s.producers i ≡ some Producer.stored
        → total waits_for_item s.consumers ≡ 0
        → Step s silent (producer i Producer.signalled s)
    unlock :
        (i : ℕ)
        → get_elem? s.producers i ≡ some Producer.signalled
        → Step s silent (record (producer i Producer.outside s) { mutex = false })
    lock_pop :
        (i : ℕ)
        → get_elem? s.consumers i ≡ some Consumer.outside
        → s.mutex ≡ false
        → Step s silent (record (consumer i Consumer.inside s) { mutex = true })
    wait_pop :
        (i : ℕ)
        → get_elem? s.consumers i ≡ some Consumer.inside
        → is_empty s ≡ true
        → Step s silent (record (consumer i Consumer.waiting s) { mutex = false })
    wake_pop :
        (i : ℕ)
        → get_elem? s.consumers i ≡ some Consumer.waiting
        → Step s silent (consumer i Consumer.woken s)
    relock_pop :
        (i : ℕ)
        → get_elem? s.consumers i ≡ some Consumer.woken
        → s.mutex ≡ false
        → Step s silent (record (consumer i Consumer.inside s) { mutex = true })
    take_item :
        (i : ℕ) (v : A) (rest : List A)
        → get_elem? s.consumers i ≡ some Consumer.inside
        → s.q ≡ v ∷ rest
        → Step s (binds v) (record (consumer i Consumer.took s) { q = rest })
    signal_room :
        (i j : ℕ) (v : A)
        → get_elem? s.consumers i ≡ some Consumer.took
        → get_elem? s.producers j ≡ some (Producer.waiting v)
        → Step s silent (producer j (Producer.woken v) (consumer i Consumer.signalled s))
    signal_no_producer :
        (i : ℕ)
        → get_elem? s.consumers i ≡ some Consumer.took
        → total waits_for_room s.producers ≡ 0
        → Step s silent (consumer i Consumer.signalled s)
    unlock_pop :
        (i : ℕ)
        → get_elem? s.consumers i ≡ some Consumer.signalled
        → Step s silent (record (consumer i Consumer.outside s) { mutex = false })

  pub data Run : BlockQueue A → List (Label A) → BlockQueue A → Type 0 where
    stop : {s : BlockQueue A} → Run s [] s
    step :
        {l : Label A} {ls : List (Label A)} {s t u : BlockQueue A}
        → Step s l t
        → Run t ls u
        → Run s (l ∷ ls) u
