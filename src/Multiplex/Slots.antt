-- ===== src/Multiplex/Slots.antt =====
-- An array of descriptors with free entries, as the servers of IO/select_server and IO/poll_server
-- keep one.
use linux_learning_machine_c.Base.{
  ℕ, zero, suc, ◌+◌, ◌≡◌, ◌==◌, ◌<◌, Option, none, some, List, [], ◌∷◌, arith, length, set, get_or,
  Bool, ap,
}
use linux_learning_machine_c.Multiplex.Call.{one}

module _ {ℓ} {A : Type ℓ} (fd_of : A → Option ℕ) where
  -- The loop of `acceptor`: the first free entry, or the size of the array.
  unfoldable pub free_slot : List A → ℕ
  free_slot [] = 0
  free_slot (a ∷ as') = elim (fd_of a) [ none ↦ 0 | some fd ↦ suc (free_slot as') ]

  abbrev pub weight : ℕ → Option ℕ → ℕ
  weight j none = 0
  weight j (some fd) = one j fd

  -- How often `j` stands in the array.
  unfoldable pub uses : ℕ → List A → ℕ
  uses j [] = 0
  uses j (a ∷ as') = weight j (fd_of a) + uses j as'

  pub free_slot-is_free :
      (as' : List A) (d : A)
      → (free_slot as' == length as') ≡ Bool.false
      → fd_of (get_or as' (free_slot as') d) ≡ none
  unfolding free_slot
  free_slot-is_free [] d h = ground arith
  free_slot-is_free (a ∷ as') d h = ground (arith, free_slot-is_free as' d)

  -- A write to an entry that held `o`.
  pub uses-set :
      (j : ℕ) (as' : List A) (i : ℕ) (a d : A) (o : Option ℕ)
      → i < length as'
      → fd_of (get_or as' i d) ≡ o
      → uses j (set as' i a) + weight j o ≡ uses j as' + weight j (fd_of a)
  unfolding uses
  uses-set j [] i a d o h e = ground arith
  uses-set j (b ∷ as') zero a d o h e = omega (arith, ap (weight j) e)
  uses-set j (b ∷ as') (suc i) a d o h e = omega (arith, uses-set j as' i a d o (omega arith) e)

  -- An entry in use is an entry of the array.
  pub used-lt :
      (as' : List A) (i : ℕ) (d : A) (fd : ℕ)
      → fd_of d ≡ none
      → fd_of (get_or as' i d) ≡ some fd
      → i < length as'
  used-lt [] i d fd e h = cc
  used-lt (b ∷ as') zero d fd e h = omega arith
  used-lt (b ∷ as') (suc i) d fd e h = omega (arith, used-lt as' i d fd e h)

  pub free_slot-lt :
      (as' : List A) → (free_slot as' == length as') ≡ Bool.false → free_slot as' < length as'
  unfolding free_slot
  free_slot-lt [] h = ground arith
  free_slot-lt (a ∷ as') h = ground (arith, free_slot-lt as')
