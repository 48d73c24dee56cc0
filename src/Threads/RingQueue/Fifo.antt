-- ===== src/Threads/RingQueue/Fifo.antt =====
-- thread_t/ring_queue: whatever the interleaving, `ring_queue` binds its references first in, first out.
use linux_learning_machine_c.Threads.Label.{Label, put_in, bound, all_in, all_bound}
use linux_learning_machine_c.Base.{
  ℕ, suc, ◌+◌, ◌-◌, ◌%◌, ◌^◌, ◌≤◌, ◌<◌, ◌≡◌, refl, sym, ◌∙◌, ap, List, [], ◌∷◌, ◌++◌, append-nil,
  append_assoc, length, length-append, get_or, set, arith, total, length-replicate, total-replicate,
}
use linux_learning_machine_c.Threads.RingQueue.{
  Producer, Consumer, RingQueue, new_ring_queue, next, Step, claim, lock, store, unlock, post,
  claim_item, lock_item, take_item, unlock_item, post_room, release, Run, stop, step,
}
use linux_learning_machine_c.Threads.RingQueue.Window.{window, length-window, window-store}
use linux_learning_machine_c.Threads.RingQueue.Counts.{
  IsConsistent, Step-IsConsistent, producer_moves, consumer_moves, next-suc,
}
use linux_learning_machine_c.Threads.RingQueue.Weights.{
  has_room, has_stored, has_item, has_taken, stores, takes,
}

module _ {A : Type 0} (blank : A) where
  -- The abstract queue: the items between the two positions, oldest first.
  abbrev pub contents : RingQueue A → List A
  contents s = window blank s.cap s.q s.rpos (s.wpos - s.rpos)

  window-suc :
      (size : ℕ) (q : List A) (r w : ℕ)
      → r < w
      → window blank size q r (w - r)
        ≡ get_or q (r % size) blank ∷ window blank size q (suc r) (w - suc r)
  window-suc size q r w h =
      let e : w - r ≡ suc (w - suc r) = omega arith in ap (window blank size q r) e

  contents-store :
      (s : RingQueue A) (v : A)
      → suc s.wpos < 2 ^ 64
      → s.rpos ≤ s.wpos
      → s.wpos - s.rpos < s.cap
      → length s.q ≡ s.cap
      → window blank s.cap (set s.q (s.wpos % s.cap) v) s.rpos (next s.wpos - s.rpos)
        ≡ contents s ++ v ∷ []
  contents-store s v small le room size =
      let n = s.wpos - s.rpos in
      let longer : next s.wpos - s.rpos ≡ suc n = omega (arith, next-suc s.wpos small) in
      let end : s.wpos ≡ s.rpos + n = omega arith in
      ap (window blank s.cap (set s.q (s.wpos % s.cap) v) s.rpos) longer
      ∙ ap (λ w. window blank s.cap (set s.q (w % s.cap) v) s.rpos (suc n)) end
      ∙ window-store blank s.cap s.q s.rpos n v room size

  contents-take :
      (s : RingQueue A)
      → suc s.rpos < 2 ^ 64
      → s.rpos < s.wpos
      → contents s
        ≡ get_or s.q (s.rpos % s.cap) blank
          ∷ window blank s.cap s.q (next s.rpos) (s.wpos - next s.rpos)
  contents-take s small lt =
      window-suc s.cap s.q s.rpos s.wpos lt
      ∙ ap (λ r. get_or s.q (s.rpos % s.cap) blank ∷ window blank s.cap s.q r (s.wpos - r))
          (sym (next-suc s.rpos small))

  Step-fifo :
      (s t : RingQueue A) (l : Label A)
      → Step blank s l t
      → suc s.wpos < 2 ^ 64
      → IsConsistent s
      → contents s ++ put_in l ≡ bound l ++ contents t
  Step-fifo s t l (claim i v e f) small c = append-nil _
  Step-fifo s t l (lock i v e f) small c = append-nil _
  Step-fifo s t l (store i v e) small c =
      let (x, y, z) = producer_moves s.producers i (Producer.locked v) Producer.stored e in
      sym (
        contents-store s v small (omega (arith, c.items)) (omega (arith, c.items, c.room, x))
          c.size)
  Step-fifo s t l (unlock i e) small c = append-nil _
  Step-fifo s t l (post i e) small c = append-nil _
  Step-fifo s t l (claim_item i e f) small c = append-nil _
  Step-fifo s t l (lock_item i e f) small c = append-nil _
  Step-fifo s t l (take_item i e) small c =
      let (x, y, z) = consumer_moves s.consumers i Consumer.locked (Consumer.took s.rpos) e in
      append-nil _ ∙ contents-take s (omega (arith, c.items)) (omega (arith, c.items, x))
  Step-fifo s t l (unlock_item i at e) small c = append-nil _
  Step-fifo s t l (post_room i at e) small c = append-nil _
  Step-fifo s t l (release i at e) small c = append-nil _

  pub Step-wpos :
      (s t : RingQueue A) (l : Label A)
      → Step blank s l t
      → suc s.wpos < 2 ^ 64
      → t.wpos ≡ s.wpos + length (put_in l)
  Step-wpos s t l (claim i v e f) small = omega arith
  Step-wpos s t l (lock i v e f) small = omega arith
  Step-wpos s t l (store i v e) small = omega (arith, next-suc s.wpos small)
  Step-wpos s t l (unlock i e) small = omega arith
  Step-wpos s t l (post i e) small = omega arith
  Step-wpos s t l (claim_item i e f) small = omega arith
  Step-wpos s t l (lock_item i e f) small = omega arith
  Step-wpos s t l (take_item i e) small = omega arith
  Step-wpos s t l (unlock_item i at e) small = omega arith
  Step-wpos s t l (post_room i at e) small = omega arith
  Step-wpos s t l (release i at e) small = omega arith

  pub Run-fifo :
      (s t : RingQueue A) (ls : List (Label A))
      → Run blank s ls t
      → suc (s.wpos + length (all_in ls)) < 2 ^ 64
      → IsConsistent s
      → (contents s ++ all_in ls ≡ all_bound ls ++ contents t) × IsConsistent t
  Run-fifo s t [] stop small c = (append-nil _, c)
  Run-fifo s t (l ∷ ls) (step {t = u} x run) small c =
      let room = length-append (put_in l) (all_in ls) in
      let first = Step-fifo s u l x (omega arith) c in
      let (rest, d) =
        Run-fifo u t ls run (omega (arith, room, Step-wpos s u l x (omega arith)))
          (Step-IsConsistent blank s u l x (omega arith) c) in
      (
        sym (append_assoc (contents s) (put_in l) (all_in ls))
            ∙ ap (λ xs. xs ++ all_in ls) first
            ∙ append_assoc (bound l) (contents u) (all_in ls)
            ∙ ap (λ xs. bound l ++ xs) rest
            ∙ sym (append_assoc (bound l) (all_bound ls) (contents t)),
        d,
      )

  pub new-IsConsistent : (cap np nc : ℕ) → IsConsistent (new_ring_queue blank cap np nc)
  new-IsConsistent cap np nc =
      let a = total-replicate (has_room {A = A}) np Producer.idle refl in
      let b = total-replicate (has_stored {A = A}) np Producer.idle refl in
      let c = total-replicate has_item nc Consumer.idle refl in
      let d = total-replicate has_taken nc Consumer.idle refl in
      record {
        size = length-replicate cap blank;
        items = omega (arith, b, c);
        room = omega (arith, a, b, c, d);
        one_storing = total-replicate (stores {A = A}) np Producer.idle refl;
        one_taking = total-replicate takes nc Consumer.idle refl;
      }

  -- In every interleaving of any number of threads that makes fewer than 2 ^ 64 - 2 stores, the items
  -- to which `pop` binds its references are, when it binds them, what was stored, in the same order
  -- and each once, followed by what the ring holds; and the ring never holds more than its capacity,
  -- so no item is overwritten before a reference is bound to it.
  pub ring_queue-fifo :
      (cap np nc : ℕ) (ls : List (Label A)) (t : RingQueue A)
      → Run blank (new_ring_queue blank cap np nc) ls t
      → length (all_in ls) < 2 ^ 64 - 2
      → (all_in ls ≡ all_bound ls ++ contents t) × (length (contents t) ≤ t.cap)
  ring_queue-fifo cap np nc ls t run small =
      let (e, c) = Run-fifo _ t ls run (omega arith) (new-IsConsistent cap np nc) in
      (e, omega (arith, length-window blank t.cap t.q t.rpos (t.wpos - t.rpos), c.items, c.room))

  -- In every interleaving with fewer than 2^64 - 2 stores at most one producer at a time is between
  -- its lock and its unlock, and at most one consumer.
  pub ring_queue_exclusive :
      (cap np nc : ℕ) (ls : List (Label A)) (t : RingQueue A)
      → Run blank (new_ring_queue blank cap np nc) ls t
      → length (all_in ls) < 2 ^ 64 - 2
      → (total stores t.producers ≤ 1) × (total takes t.consumers ≤ 1)
  ring_queue_exclusive cap np nc ls t run small =
      let (e, c) = Run-fifo _ t ls run (omega arith) (new-IsConsistent cap np nc) in
      (ground (arith, c.one_storing), ground (arith, c.one_taking))
