-- ===== src/Signals/Held.antt =====
-- signal_t/signal_t.cc: what becomes of a signal that arrives while it is blocked.
use linux_learning_machine_c.Base.{
  ℕ, ◌≡◌, refl, sym, subst, ◌∙◌, ◌==◌, ◌||◌, if◌then◌else◌, Bool, true, false, ◌⊎◌, inl, inr, List,
  [], ◌∷◌, ◌++◌, append_assoc, append-nil, All,
}
use mathlib.Core.Bool.{or_assoc}
use linux_learning_machine_c.Signals.{Process, Sigset, sigprocmask, arrive, arrive_all}

abbrev pub IsBlocked : ℕ → Type 0
IsBlocked sig = (sig ≡ 2) ⊎ (sig ≡ 3)

-- One of the signals is `sig`.
abbrev pub arrives : ℕ → List ℕ → Bool
arrives sig [] = false
arrives sig (x ∷ xs) = (sig == x) || arrives sig xs

-- The two signals are blocked, and pending as the Booleans say.
pub record IsHeld (p : Process) (two three : Bool) : Type 0 where
  pub blocked : (p.mask 2 ≡ true) × (p.mask 3 ≡ true)
  pub held : (p.pending 2 ≡ two) × (p.pending 3 ≡ three)

or_true : (a : Bool) → (a || true) ≡ true
or_true true = refl
or_true false = refl

pub or_false : (a : Bool) → (a || false) ≡ a
or_false true = refl
or_false false = refl

-- How the state is behind a signal that is blocked.
abbrev pub Held : Process → Bool → Bool → Process → Type 0
Held p a b q = IsHeld q a b × (q.caught ≡ p.caught)

arrive_two :
    (p : Process) (a b : Bool) → IsHeld p a b → Held p (a || true) (b || false) (arrive 2 p)
arrive_two p a b v =
    rw (v.blocked.0)
      (record { blocked = v.blocked; held = (sym (or_true a), v.held.1 ∙ sym (or_false b)) }, refl)

arrive_three :
    (p : Process) (a b : Bool) → IsHeld p a b → Held p (a || false) (b || true) (arrive 3 p)
arrive_three p a b v =
    rw (v.blocked.1)
      (record { blocked = v.blocked; held = (v.held.0 ∙ sym (or_false a), sym (or_true b)) }, refl)

arrive-Held :
    (sig : ℕ) (p : Process) (a b : Bool)
    → IsBlocked sig
    → IsHeld p a b
    → Held p (a || (2 == sig)) (b || (3 == sig)) (arrive sig p)
arrive-Held sig p a b (inl e) v =
    subst (λ x. Held p (a || (2 == x)) (b || (3 == x)) (arrive x p)) (sym e) (arrive_two p a b v)
arrive-Held sig p a b (inr e) v =
    subst (λ x. Held p (a || (2 == x)) (b || (3 == x)) (arrive x p)) (sym e) (arrive_three p a b v)

pub arrive_all-Held :
    (sigs : List ℕ) (p : Process) (a b : Bool)
    → All IsBlocked sigs
    → IsHeld p a b
    → Held p (a || arrives 2 sigs) (b || arrives 3 sigs) (arrive_all sigs p)
arrive_all-Held [] p a b h v = rw (or_false a, or_false b) (v, refl)
arrive_all-Held (x ∷ xs) p a b h v =
    let (w, same) = arrive-Held x p a b h.0 v in
    let (u, rest) = arrive_all-Held xs (arrive x p) (a || (2 == x)) (b || (3 == x)) h.1 w in
    (
      subst (λ c. IsHeld (arrive_all xs (arrive x p)) c (b || arrives 3 (x ∷ xs)))
          (or_assoc a (2 == x) (arrives 2 xs))
          (subst (λ c. IsHeld (arrive_all xs (arrive x p)) ((a || (2 == x)) || arrives 2 xs) c)
            (or_assoc b (3 == x) (arrives 3 xs)) u),
      rest ∙ same,
    )

-- The signals that are let through, in the order of the kernel.
abbrev pub let_through : Bool → Bool → Bool → List ℕ
let_through true two three = (if two then 2 ∷ [] else []) ++ (if three then 3 ∷ [] else [])
let_through false two three = (if three then 3 ∷ [] else []) ++ (if two then 2 ∷ [] else [])

abbrev pub Free : Sigset → Type 0
Free set = (set 2 ≡ false) × (set 3 ≡ false)

-- Unblocking delivers what is pending.
pub record Released (two_first : Bool) (p : Process) (set : Sigset) (a b : Bool) (q : Process)
    : Type 0 where
  pub mask : q.mask ≡ set
  pub nothing : (q.pending 2 ≡ false) × (q.pending 3 ≡ false)
  pub caught : q.caught ≡ p.caught ++ let_through two_first a b

pub sigprocmask-Released :
    (two_first : Bool) (p : Process) (set : Sigset) (a b : Bool)
    → IsHeld p a b
    → Free set
    → Released two_first p set a b (sigprocmask two_first set p)
sigprocmask-Released true p set true true v f =
    rw (v.held.0, f.0, v.held.1, f.1)
      (record {
        mask = refl;
        nothing = (refl, refl);
        caught = append_assoc p.caught (2 ∷ []) (3 ∷ []);
      })
sigprocmask-Released false p set true true v f =
    rw (v.held.1, f.1, v.held.0, f.0)
      (record {
        mask = refl;
        nothing = (refl, refl);
        caught = append_assoc p.caught (3 ∷ []) (2 ∷ []);
      })
sigprocmask-Released true p set true false v f =
    rw (v.held.0, f.0, v.held.1) (record { mask = refl; nothing = (refl, v.held.1); caught = refl })
sigprocmask-Released false p set true false v f =
    rw (v.held.1, v.held.0, f.0) (record { mask = refl; nothing = (refl, v.held.1); caught = refl })
sigprocmask-Released true p set false true v f =
    rw (v.held.0, v.held.1, f.1) (record { mask = refl; nothing = (v.held.0, refl); caught = refl })
sigprocmask-Released false p set false true v f =
    rw (v.held.1, f.1, v.held.0) (record { mask = refl; nothing = (v.held.0, refl); caught = refl })
sigprocmask-Released true p set false false v f =
    rw (v.held.0, v.held.1)
      (record { mask = refl; nothing = v.held; caught = sym (append-nil p.caught) })
sigprocmask-Released false p set false false v f =
    rw (v.held.1, v.held.0)
      (record { mask = refl; nothing = v.held; caught = sym (append-nil p.caught) })

-- Blocking again delivers nothing.
pub sigprocmask_idle :
    (two_first : Bool) (p : Process) (set : Sigset)
    → p.pending 2 ≡ false
    → p.pending 3 ≡ false
    → sigprocmask two_first set p ≡ record p { mask = set }
sigprocmask_idle true p set e f = rw (e, f)
sigprocmask_idle false p set e f = rw (f, e)
