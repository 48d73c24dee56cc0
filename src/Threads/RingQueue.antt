-- ===== src/Threads/RingQueue.antt =====
-- thread_t/ring_queue/ring_queue.hpp: `ring_queue` and the threads that call `push` and `pop`, one
-- step for each call of a semaphore or mutex and for each access to the ring.
pub mod Window
pub mod Weights
pub mod Counts
pub mod Fifo
pub mod Reads
use linux_learning_machine_c.Threads.Label.{Label, silent, pushes, binds, reads}
use linux_learning_machine_c.Base.{
  ℕ, suc, ◌+◌, ◌%◌, ◌^◌, ◌≡◌, Bool, true, false, Option, none, some, List, [], ◌∷◌, get_elem?,
  get_or, set, replicate, length,
}

-- A thread in `push(data)`, by what it does next.
pub data Producer (A : Type 0) : Type 0 where
  idle : Producer A
  claimed : A → Producer A
  locked : A → Producer A
  stored : Producer A
  unlocked : Producer A

-- A thread in `pop`; the argument is the position at which the reference `P` was bound: it stands for
-- the slot of that position. `pop` returns it, and the caller reads it, behind `V(_write)`.
pub data Consumer : Type 0 where
  idle claimed locked : Consumer
  took : ℕ → Consumer
  unlocked : ℕ → Consumer
  holding : ℕ → Consumer

-- A semaphore is its value, a mutex whether it is locked.
pub record RingQueue (A : Type 0) : Type 0 where
  pub q : List A
  pub cap : ℕ
  pub read : ℕ
  pub write : ℕ
  pub rpos : ℕ
  pub wpos : ℕ
  pub pmutex : Bool
  pub vmutex : Bool
  pub producers : List (Producer A)
  pub consumers : List Consumer

-- `ring_queue(cap)`: a vector of `cap` default values.
abbrev pub new_ring_queue : {A : Type 0} → A → ℕ → ℕ → ℕ → RingQueue A
new_ring_queue blank cap producers consumers = record {
  q = replicate cap blank;
  cap = cap;
  read = 0;
  write = cap;
  rpos = 0;
  wpos = 0;
  pmutex = false;
  vmutex = false;
  producers = replicate producers Producer.idle;
  consumers = replicate consumers Consumer.idle;
}

-- `size_t` after `++`.
abbrev pub next : ℕ → ℕ
next pos = (pos + 1) % 2 ^ 64

module _ {A : Type 0} (blank : A) where
  abbrev pub producer : ℕ → Producer A → RingQueue A → RingQueue A
  producer i p s = record s { producers = set s.producers i p }

  abbrev pub consumer : ℕ → Consumer → RingQueue A → RingQueue A
  consumer i c s = record s { consumers = set s.consumers i c }

  -- The steps of `push`: `P(_write)`, lock, `_q[_wPos++ % _cap] = data`, unlock, `V(_read)`; those of
  -- `pop`: `P(_read)`, lock, `P = _q[_rPos++ % _cap]`, unlock, `V(_write)`, and the caller's reading
  -- of the reference, which gives what the slot holds by then.
  pub data Step (s : RingQueue A) : Label A → RingQueue A → Type 0 where
    claim :
        (i : ℕ) (data' : A) {n : ℕ}
        → get_elem? s.producers i ≡ some Producer.idle
        → s.write ≡ suc n
        → Step s silent (record (producer i (Producer.claimed data') s) { write = n })
    lock :
        (i : ℕ) (data' : A)
        → get_elem? s.producers i ≡ some (Producer.claimed data')
        → s.pmutex ≡ false
        → Step s silent (record (producer i (Producer.locked data') s) { pmutex = true })
    store :
        (i : ℕ) (data' : A)
        → get_elem? s.producers i ≡ some (Producer.locked data')
        → Step s (pushes data') (record (producer i Producer.stored s) {
          q = set s.q (s.wpos % s.cap) data';
          wpos = next s.wpos;
        })
    unlock :
        (i : ℕ)
        → get_elem? s.producers i ≡ some Producer.stored
        → Step s silent (record (producer i Producer.unlocked s) { pmutex = false })
    post :
        (i : ℕ)
        → get_elem? s.producers i ≡ some Producer.unlocked
        → Step s silent (record (producer i Producer.idle s) { read = suc s.read })
    claim_item :
        (i : ℕ) {n : ℕ}
        → get_elem? s.consumers i ≡ some Consumer.idle
        → s.read ≡ suc n
        → Step s silent (record (consumer i Consumer.claimed s) { read = n })
    lock_item :
        (i : ℕ)
        → get_elem? s.consumers i ≡ some Consumer.claimed
        → s.vmutex ≡ false
        → Step s silent (record (consumer i Consumer.locked s) { vmutex = true })
    take_item :
        (i : ℕ)
        → get_elem? s.consumers i ≡ some Consumer.locked
        → Step s
            (binds (get_or s.q (s.rpos % s.cap) blank))
            (record (consumer i (Consumer.took s.rpos) s) { rpos = next s.rpos })
    unlock_item :
        (i at : ℕ)
        → get_elem? s.consumers i ≡ some (Consumer.took at)
        → Step s silent (record (consumer i (Consumer.unlocked at) s) { vmutex = false })
    post_room :
        (i at : ℕ)
        → get_elem? s.consumers i ≡ some (Consumer.unlocked at)
        → Step s silent (record (consumer i (Consumer.holding at) s) { write = suc s.write })
    release :
        (i at : ℕ)
        → get_elem? s.consumers i ≡ some (Consumer.holding at)
        → Step s (reads (get_or s.q (at % s.cap) blank)) (consumer i Consumer.idle s)

  -- An interleaving, by its labels.
  pub data Run : RingQueue A → List (Label A) → RingQueue A → Type 0 where
    stop : {s : RingQueue A} → Run s [] s
    step :
        {l : Label A} {ls : List (Label A)} {s t u : RingQueue A}
        → Step s l t
        → Run t ls u
        → Run s (l ∷ ls) u
