-- ===== src/Reactor/Sweep.antt =====
-- IO/reactor: when the keep-alive check of the event loop closes a connection.
use linux_learning_machine_c.Base.{
  ℕ, ◌+◌, ◌-◌, ◌%◌, ◌^◌, ◌<◌, ◌≤◌, ◌≡◌, ◌≢◌, refl, true, false, ◌⊎◌, inr, [], ◌∷◌, All, dec_lt,
  arith,
}
use native.Mathlib.Nat.{mod-eq_of_lt, mod-eq-sub-mod}
use linux_learning_machine_c.Reactor.Connection.{Connection}
use linux_learning_machine_c.Reactor.Manager.{Conns, is_timeout}
use linux_learning_machine_c.Reactor.World.{World, ok, fault, bad_iterator}
use linux_learning_machine_c.Reactor.Loop.{sweep, keepalive}

-- The last time is a `uint64_t`.
abbrev pub HasTime : ℕ × Connection → Type 0
HasTime (s, c) = c.time.lasttime < 2 ^ 64

-- Idle for more than 300 seconds; or the clock has been set back behind the last time, as the
-- difference then wraps.
abbrev pub IsExpired : ℕ → Connection → Type 0
IsExpired now c =
    (c.time.longlive ≢ 1)
    × ((c.time.lasttime + 300 < now)
        ⊎ ((now < c.time.lasttime) × (c.time.lasttime + 300 < now + 2 ^ 64)))

-- The difference of two `uint64_t`.
later :
    (now last : ℕ)
    → now < 2 ^ 64
    → last ≤ now
    → (now + 2 ^ 64 - last % 2 ^ 64) % 2 ^ 64 ≡ now - last
later now last h l = omega (
  arith,
  mod-eq_of_lt {n = last} {m = 2 ^ 64} (omega (arith, h, l)),
  mod-eq-sub-mod {n = now + 2 ^ 64 - last} {m = 2 ^ 64} (omega (arith, l)),
  mod-eq_of_lt {n = now + 2 ^ 64 - last - 2 ^ 64} {m = 2 ^ 64} (omega (arith, h, l)),
)

earlier :
    (now last : ℕ)
    → last < 2 ^ 64
    → now < last
    → (now + 2 ^ 64 - last % 2 ^ 64) % 2 ^ 64 ≡ now + 2 ^ 64 - last
earlier now last h l = omega (
  arith,
  mod-eq_of_lt {n = last} {m = 2 ^ 64} h,
  mod-eq_of_lt {n = now + 2 ^ 64 - last} {m = 2 ^ 64} (omega (arith, h, l)),
)

is_timeout-IsExpired :
    (now s : ℕ) (c : Connection)
    → now < 2 ^ 64
    → HasTime (s, c)
    → (IsExpired now c × (is_timeout now keepalive c ≡ true))
      ⊎ (¬ IsExpired now c × (is_timeout now keepalive c ≡ false))
unfolding is_timeout
is_timeout-IsExpired now s c h l = elim (dec_lt now c.time.lasttime) [
  | yes back ↦ ground (arith, h, l, back, earlier now c.time.lasttime l back)
  | no on ↦ ground (arith, h, l, later now c.time.lasttime h (omega (arith, on)))
]

-- Some connection of the list has expired.
abbrev pub AnyExpired : ℕ → Conns → Type 0
AnyExpired now [] = ⊥
AnyExpired now ((s, c) ∷ cs) = IsExpired now c ⊎ AnyExpired now cs

-- At a time and with last times that are `uint64_t`: the keep-alive check of `run` is undefined
-- exactly when some connection that is not long-lived has been idle for more than 300 seconds, or was
-- active at a time that the clock has been set back from; otherwise it changes nothing.
pub sweep-AnyExpired :
    (cs : Conns) (w : World)
    → w.clock < 2 ^ 64
    → All HasTime cs
    → (AnyExpired w.clock cs × (sweep cs w ≡ fault bad_iterator))
      ⊎ (¬ AnyExpired w.clock cs × (sweep cs w ≡ ok w))
unfolding sweep
sweep-AnyExpired [] w h t = inr (λ h. h, refl)
sweep-AnyExpired ((s, c) ∷ cs) w h t =
    ground (arith, is_timeout-IsExpired w.clock s c h t.0, sweep-AnyExpired cs w h t.1)
