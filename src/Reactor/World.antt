-- ===== src/Reactor/World.antt =====
-- IO/reactor/reactor_server.hpp: the state of `server_reactor`, and how a handler can fail.
use linux_learning_machine_c.Base.{
  ℕ, Bool, true, false, ◌≡◌, refl, Option, none, some, List, ◌∷◌, arith,
}
use linux_learning_machine_c.Reactor.Connection.{Connection}
use linux_learning_machine_c.Reactor.Manager.{Conns, getconnptr, modify}
use linux_learning_machine_c.Reactor.Kernel.{Write, Call}

-- The trace holds the newest call first.
pub record World : Type 0 where
  pub conns : Conns
  pub clock : ℕ
  pub writes : List Write
  pub trace : List Call

-- What C++ leaves undefined, or an exception that nothing catches.
pub data Fault : Type 0 where
  use_after_free missing_return buffer_overflow bad_iterator bad_call callback_threw : Fault

pub data Outcome {ℓ} (A : Type ℓ) : Type ℓ where
  ok : A → Outcome A
  fault : Fault → Outcome A

infixl 5 ◌>>=◌
abbrev pub ◌>>=◌ {ℓ κ} : {A : Type ℓ} {B : Type κ} → Outcome A → (A → Outcome B) → Outcome B
ok a >>= f = f a
fault e >>= f = fault e

abbrev pub log_call : Call → World → World
log_call c w = record w { trace = c ∷ w.trace }

abbrev pub on_conn : ℕ → (Connection → Connection) → World → World
on_conn fd f w = record w { conns = modify fd f w.conns }

-- A read through `pc`, the pointer of `fd`: after `deleconn` it dangles.
abbrev pub deref : ℕ → World → Outcome Connection
deref fd w = elim (getconnptr fd w.conns) [ none ↦ fault use_after_free | some c ↦ ok c ]

-- A condition that C++ takes for granted.
abbrev pub require : Bool → Fault → Outcome (Unit {0})
require true e = ok tt
require false e = fault e

abbrev pub or_fault {ℓ} : {A : Type ℓ} → Option A → Fault → Outcome A
or_fault none e = fault e
or_fault (some a) e = ok a

pub ok-injective {ℓ} : {A : Type ℓ} {a b : A} → ok a ≡ ok b → a ≡ b
ok-injective h = cc h

-- Inversion of a chain of steps that did not fail.
pub >>=-eq-ok {ℓ κ} :
    {B : Type κ} {b : B} {A : Type ℓ} (m : Outcome A) (f : A → Outcome B)
    → (m >>= f) ≡ ok b
    → (a : A) × (m ≡ ok a) × (f a ≡ ok b)
>>=-eq-ok (fault e) f h = cc
>>=-eq-ok (ok a) f h = (a, refl, h)

pub deref-ok :
    (fd : ℕ) (w : World) {c : Connection} → deref fd w ≡ ok c → getconnptr fd w.conns ≡ some c
deref-ok fd w h = ground arith

pub or_fault-ok {ℓ} :
    {A : Type ℓ} (o : Option A) (e : Fault) {a : A} → or_fault o e ≡ ok a → o ≡ some a
or_fault-ok o e h = ground arith
