-- ===== src/Threads/RingQueue/Reads.antt =====
-- thread_t/ring_queue: what a caller of `pop` reads through its reference.
use native.Mathlib.Nat.{mod-lt}
use linux_learning_machine_c.Threads.Label.{Label, reads, put_in, all_in}
use linux_learning_machine_c.Base.{
  ℕ, zero, suc, ◌+◌, ◌-◌, ◌%◌, ◌^◌, ◌≤◌, ◌<◌, ◌≡◌, refl, sym, subst, ◌∙◌, ap, dec_lt, some, List,
  [], ◌∷◌, ◌++◌, append-nil, append_assoc, length, length-append, get_or, get_elem?, set, arith,
  All, All-set, replicate, some-injective,
}
use linux_learning_machine_c.Threads.RingQueue.{
  Producer, Consumer, RingQueue, new_ring_queue, next, Step, claim, lock, store, unlock, post,
  claim_item, lock_item, take_item, unlock_item, post_room, release, Run, stop, step, consumer,
}
use linux_learning_machine_c.Threads.RingQueue.Window.{round-ne, get_or-set_ne, get_or-set_self}
use linux_learning_machine_c.Threads.RingQueue.Fifo.{new-IsConsistent, Step-wpos}
use linux_learning_machine_c.Threads.RingQueue.Counts.{
  IsConsistent, Step-IsConsistent, producer_moves, consumer_moves, next-suc,
}

get_elem?-front {ℓ} :
    {A : Type ℓ} (xs ys : List A) (k : ℕ) → k < length xs → get_elem? (xs ++ ys) k ≡ get_elem? xs k
get_elem?-front [] ys k h = elim h [ ]
get_elem?-front (x ∷ xs) ys zero h = refl
get_elem?-front (x ∷ xs) ys (suc k) h = get_elem?-front xs ys k (omega (arith, h))

get_elem?-length {ℓ} :
    {A : Type ℓ} (xs : List A) (v : A) → get_elem? (xs ++ v ∷ []) (length xs) ≡ some v
get_elem?-length [] v = refl
get_elem?-length (x ∷ xs) v = get_elem?-length xs v

-- A reference of a thread in `pop` was bound at a position before `n`.
abbrev Below : ℕ → Consumer → Type 0
Below n Consumer.idle = Unit {0}
Below n Consumer.claimed = Unit {0}
Below n Consumer.locked = Unit {0}
Below n (Consumer.took at) = at < n
Below n (Consumer.unlocked at) = at < n
Below n (Consumer.holding at) = at < n

Below-suc : (n m : ℕ) (c : Consumer) → n ≤ m → Below n c → Below m c
Below-suc n m Consumer.idle h b = tt
Below-suc n m Consumer.claimed h b = tt
Below-suc n m Consumer.locked h b = tt
Below-suc n m (Consumer.took at) h b = omega (arith, h, b)
Below-suc n m (Consumer.unlocked at) h b = omega (arith, h, b)
Below-suc n m (Consumer.holding at) h b = omega (arith, h, b)

All-Below-suc : (n m : ℕ) (cs : List Consumer) → n ≤ m → All (Below n) cs → All (Below m) cs
All-Below-suc n m [] h b = tt
All-Below-suc n m (c ∷ cs) h b = (Below-suc n m c h b.0, All-Below-suc n m cs h b.1)

All-Below-get :
    (n : ℕ) (cs : List Consumer) (i : ℕ) (c : Consumer)
    → get_elem? cs i ≡ some c
    → All (Below n) cs
    → Below n c
All-Below-get n [] i c e b = cc e
All-Below-get n (x ∷ cs) zero c e b = subst (Below n) (some-injective e) b.0
All-Below-get n (x ∷ cs) (suc i) c e b = All-Below-get n cs i c e b.1

All-Below-idle : (n k : ℕ) → All (Below n) (replicate k Consumer.idle)
All-Below-idle n zero = tt
All-Below-idle n (suc k) = (tt, All-Below-idle n k)

module _ {A : Type 0} (blank : A) where
  -- After the stores `stored`, the slot of each of the last `cap` positions holds the item that was
  -- stored there.
  record Holds (stored q : List A) (cap wpos : ℕ) : Type 0 where
    count : length stored ≡ wpos
    slots :
        (k : ℕ) → k < wpos → wpos ≤ k + cap → get_elem? stored k ≡ some (get_or q (k % cap) blank)

  store-slots :
      (stored q : List A) (cap wpos : ℕ) (v : A) (k : ℕ)
      → Holds stored q cap wpos
      → 0 < cap
      → length q ≡ cap
      → k < suc wpos
      → suc wpos ≤ k + cap
      → get_elem? (stored ++ v ∷ []) k ≡ some (get_or (set q (wpos % cap) v) (k % cap) blank)
  store-slots stored q cap wpos v k h some_room size l near = elim (dec_lt k wpos) [
    | yes older ↦
        get_elem?-front stored (v ∷ []) k (omega (arith, h.count, older))
        ∙ h.slots k older (omega (arith, near))
        ∙ ap some (
            sym (
              get_or-set_ne blank cap q (wpos % cap) (k % cap) v (λ e.
                round-ne k (wpos - k) cap (omega (arith, near, older))
                  (λ z. omega (arith, z, older)) (ap (λ x. x % cap) (omega (arith, older)) ∙ e))))
    | no newest ↦
        let here : k ≡ wpos = omega (arith, l, newest) in
        ap (get_elem? (stored ++ v ∷ [])) (here ∙ sym h.count)
        ∙ get_elem?-length stored v
        ∙ ap some (
            sym (
              get_or-set_self blank cap q (wpos % cap) v
                (omega (arith, size, mod-lt wpos {m = cap} some_room)))
            ∙ ap (λ j. get_or (set q (wpos % cap) v) (j % cap) blank) (sym here))
  ]

  store-Holds :
      (stored q : List A) (cap wpos : ℕ) (v : A)
      → Holds stored q cap wpos
      → 0 < cap
      → length q ≡ cap
      → Holds (stored ++ v ∷ []) (set q (wpos % cap) v) cap (suc wpos)
  store-Holds stored q cap wpos v h some_room size = record {
    count = omega (arith, h.count, length-append stored (v ∷ []));
    slots = λ k l near. store-slots stored q cap wpos v k h some_room size l near;
  }

  -- The items of a state, and where its references are bound.
  IsStored : List A → RingQueue A → Type 0
  IsStored stored s = Holds stored s.q s.cap s.wpos × All (Below s.rpos) s.consumers

  abbrev moved :
      (s : RingQueue A) (i : ℕ) (c : Consumer)
      → Below s.rpos c
      → All (Below s.rpos) s.consumers
      → All (Below s.rpos) (set s.consumers i c)
  moved s i c = All-set (Below s.rpos) s.consumers i c

  Step-IsStored :
      (stored : List A) (s t : RingQueue A) (l : Label A)
      → Step blank s l t
      → suc s.wpos < 2 ^ 64
      → IsConsistent s
      → IsStored stored s
      → IsStored (stored ++ put_in l) t
  unfolding IsStored
  Step-IsStored stored s t l (claim i v e f) small c h = rw (append-nil stored) h
  Step-IsStored stored s t l (lock i v e f) small c h = rw (append-nil stored) h
  Step-IsStored stored s t l (store i v e) small c h =
      let (x, y, z) = producer_moves s.producers i (Producer.locked v) Producer.stored e in
      (
        subst (Holds (stored ++ v ∷ []) (set s.q (s.wpos % s.cap) v) s.cap)
            (sym (next-suc s.wpos small))
            (store-Holds stored s.q s.cap s.wpos v h.0 (omega (arith, c.room, x)) c.size),
        h.1,
      )
  Step-IsStored stored s t l (unlock i e) small c h = rw (append-nil stored) h
  Step-IsStored stored s t l (post i e) small c h = rw (append-nil stored) h
  Step-IsStored stored s t l (claim_item i e f) small c h =
      rw (append-nil stored) (h.0, moved s i Consumer.claimed tt h.1)
  Step-IsStored stored s t l (lock_item i e f) small c h =
      rw (append-nil stored) (h.0, moved s i Consumer.locked tt h.1)
  Step-IsStored stored s t l (take_item i e) small c h =
      let (x, y, z) = consumer_moves s.consumers i Consumer.locked (Consumer.took s.rpos) e in
      let up : next s.rpos ≡ suc s.rpos = next-suc s.rpos (omega (arith, c.items, small)) in
      rw (append-nil stored) (
        h.0,
        All-set (Below (next s.rpos)) s.consumers i (Consumer.took s.rpos) (omega (arith, up))
            (All-Below-suc s.rpos (next s.rpos) s.consumers (omega (arith, up)) h.1),
      )
  Step-IsStored stored s t l (unlock_item i at e) small c h =
      rw (append-nil stored)
        (h.0, moved s i (Consumer.unlocked at) (All-Below-get s.rpos s.consumers i _ e h.1) h.1)
  Step-IsStored stored s t l (post_room i at e) small c h =
      rw (append-nil stored)
        (h.0, moved s i (Consumer.holding at) (All-Below-get s.rpos s.consumers i _ e h.1) h.1)
  Step-IsStored stored s t l (release i at e) small c h =
      rw (append-nil stored) (h.0, moved s i Consumer.idle tt h.1)

  Run-IsStored :
      (stored : List A) (s t : RingQueue A) (ls : List (Label A))
      → Run blank s ls t
      → suc (s.wpos + length (all_in ls)) < 2 ^ 64
      → IsConsistent s
      → IsStored stored s
      → IsStored (stored ++ all_in ls) t × IsConsistent t
  Run-IsStored stored s t [] stop small c h = (rw (append-nil stored) h, c)
  Run-IsStored stored s t (l ∷ ls) (step {t = u} x run) small c h =
      let room = length-append (put_in l) (all_in ls) in
      let (rest, d) =
        Run-IsStored (stored ++ put_in l) u t ls run
          (omega (arith, room, Step-wpos blank s u l x (omega arith)))
          (Step-IsConsistent blank s u l x (omega arith) c)
          (Step-IsStored stored s u l x (omega arith) c h) in
      (subst (λ xs. IsStored xs t) (append_assoc stored (put_in l) (all_in ls)) rest, d)

  -- In every interleaving that makes fewer than 2 ^ 64 - 2 stores: a thread that holds the reference
  -- that `pop` bound at position `at` reads the item that was stored there, number `at` of all that
  -- were stored, as long as no more than the capacity have been stored from that position on.
  pub reads_stored :
      (cap np nc i at : ℕ) (ls : List (Label A)) (t : RingQueue A)
      → Run blank (new_ring_queue blank cap np nc) ls t
      → length (all_in ls) < 2 ^ 64 - 2
      → get_elem? t.consumers i ≡ some (Consumer.holding at)
      → t.wpos ≤ at + t.cap
      → (v : A) × Step blank t (reads v) (consumer blank i Consumer.idle t)
        × (get_elem? (all_in ls) at ≡ some v)
  unfolding IsStored
  reads_stored cap np nc i at ls t run small e near =
      let s = new_ring_queue blank cap np nc in
      let start : Holds [] s.q s.cap s.wpos = record {
        count = refl;
        slots = λ k l near. absurd (omega (arith, l));
      } in
      let ((holds, below), c) =
        Run-IsStored [] s t ls run (omega (arith, small)) (new-IsConsistent blank cap np nc)
          (start, All-Below-idle 0 nc) in
      let before : at < t.rpos = All-Below-get t.rpos t.consumers i _ e below in
      (
        get_or t.q (at % t.cap) blank,
        release i at e,
        holds.slots at (omega (arith, before, c.items)) near,
      )
