-- ===== src/Threads/RingQueue/Window.antt =====
-- thread_t/ring_queue: the items of a ring between its two positions.
use native.Mathlib.Nat.{mod-lt, mod-eq_of_lt, mod-eq-sub-mod, mod-add-mod}
use linux_learning_machine_c.Base.{
  ℕ, zero, suc, ◌+◌, ◌-◌, ◌%◌, ◌<◌, ◌≡◌, ◌≢◌, refl, sym, ◌∙◌, ap, dec_lt, List, [], ◌∷◌, ◌++◌,
  length, get_or, set, arith,
}

-- Fewer than `c` steps do not lead round the ring.
pub round-ne : (r k c : ℕ) → k < c → k ≢ 0 → (r + k) % c ≢ r % c
round-ne r k c h nz e = elim (dec_lt (r % c + k) c) [
  | yes p ↦ omega (arith, mod-add-mod r c k, mod-eq_of_lt {n = r % c + k} {m = c} p)
  | no p ↦ omega (
    arith,
    mod-add-mod r c k,
    mod-lt r {m = c} (omega arith),
    mod-eq-sub-mod {n = r % c + k} {m = c} (omega arith),
    mod-eq_of_lt {n = r % c + k - c} {m = c} (omega (arith, mod-lt r {m = c} (omega arith))),
  )
]

module _ {A : Type 0} (blank : A) (cap : ℕ) where
  -- The `n` items from position `r` on.
  abbrev pub window : List A → ℕ → ℕ → List A
  window q r zero = []
  window q r (suc n) = get_or q (r % cap) blank ∷ window q (suc r) n

  pub length-window : (q : List A) (r n : ℕ) → length (window q r n) ≡ n
  length-window q r zero = refl
  length-window q r (suc n) = ap suc (length-window q (suc r) n)

  pub get_or-set_ne :
      (q : List A) (i j : ℕ) (v : A) → i ≢ j → get_or (set q i v) j blank ≡ get_or q j blank
  get_or-set_ne [] i j v h = refl
  get_or-set_ne (x ∷ q) zero zero v h = absurd (h refl)
  get_or-set_ne (x ∷ q) zero (suc j) v h = refl
  get_or-set_ne (x ∷ q) (suc i) zero v h = refl
  get_or-set_ne (x ∷ q) (suc i) (suc j) v h = get_or-set_ne q i j v (λ e. h (ap suc e))

  pub get_or-set_self : (q : List A) (i : ℕ) (v : A) → i < length q → get_or (set q i v) i blank ≡ v
  get_or-set_self [] i v h = elim h [ ]
  get_or-set_self (x ∷ q) zero v h = refl
  get_or-set_self (x ∷ q) (suc i) v h = get_or-set_self q i v (omega arith)

  -- A store at the end of a window that is not full puts its item behind the others.
  pub window-store :
      (q : List A) (r n : ℕ) (v : A)
      → n < cap
      → length q ≡ cap
      → window (set q ((r + n) % cap) v) r (suc n) ≡ window q r n ++ v ∷ []
  window-store q r zero v room size =
      let here : (r + 0) % cap < length q = omega (arith, mod-lt (r + 0) {m = cap} room) in
      let at : (r + 0) % cap ≡ r % cap = ap (λ x. x % cap) (omega arith) in
      ap (λ x. x ∷ [])
        (ap (λ i. get_or (set q ((r + 0) % cap) v) i blank) (sym at)
          ∙ get_or-set_self q ((r + 0) % cap) v here)
  window-store q r (suc n) v room size =
      let shift : (r + suc n) % cap ≡ (suc r + n) % cap = ap (λ x. x % cap) (omega arith) in
      ap (λ x. x ∷ window (set q ((r + suc n) % cap) v) (suc r) (suc n))
        (get_or-set_ne q ((r + suc n) % cap) (r % cap) v
          (round-ne r (suc n) cap room (λ e. omega arith)))
      ∙ ap (λ xs. get_or q (r % cap) blank ∷ xs)
          (ap (λ i. window (set q i v) (suc r) (suc n)) shift
            ∙ window-store q (suc r) n v (omega arith) size)
