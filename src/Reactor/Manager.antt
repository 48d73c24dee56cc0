-- ===== src/Reactor/Manager.antt =====
-- IO/reactor/reactor_server.hpp: `conn_manager`, a map from descriptors to connections.
use linux_learning_machine_c.Base.{
  ℕ, ◌+◌, ◌-◌, ◌%◌, ◌^◌, ◌≡◌, Bool, true, false, ◌==◌, ltb, if◌then◌else◌, Option, none, some, List,
  [], ◌∷◌, arith,
}
use linux_learning_machine_c.Reactor.Connection.{Connection, is_longlive}

-- `std::unordered_map<int, connptr>`: each descriptor at most once.
abbrev pub Conns : Type 0
Conns = List (ℕ × Connection)

abbrev pub is_some {ℓ} : {A : Type ℓ} → Option A → Bool
is_some none = false
is_some (some a) = true

-- `_conns[sock]`, for a descriptor that is in the map.
unfoldable pub getconnptr : ℕ → Conns → Option Connection
getconnptr sock [] = none
getconnptr sock ((s, c) ∷ cs) = if s == sock then some c else getconnptr sock cs

-- `is_alive`
abbrev pub is_alive : ℕ → Conns → Bool
is_alive sock cs = is_some (getconnptr sock cs)

-- `newconn`: `insert` keeps the entry of a descriptor that is there already.
unfoldable pub newconn : ℕ → Connection → Conns → Conns
unfolding getconnptr
newconn sock c cs = if is_alive sock cs then cs else (sock, c) ∷ cs

-- `deleconn`
unfoldable pub deleconn : ℕ → Conns → Conns
deleconn sock [] = []
deleconn sock ((s, c) ∷ cs) = if s == sock then deleconn sock cs else (s, c) ∷ deleconn sock cs

-- A write through the pointer of `sock`.
unfoldable pub modify : ℕ → (Connection → Connection) → Conns → Conns
modify sock f [] = []
modify sock f ((s, c) ∷ cs) = if s == sock then (s, f c) ∷ cs else (s, c) ∷ modify sock f cs

-- `is_timeout`: `uint64_t` subtraction wraps.
unfoldable pub is_timeout : ℕ → ℕ → Connection → Bool
is_timeout now limit c =
    if is_longlive c then false else ltb limit ((now + 2 ^ 64 - c.time.lasttime % 2 ^ 64) % 2 ^ 64)

pub getconnptr-newconn :
    (j sock : ℕ) (c : Connection) (cs : Conns)
    → getconnptr j (newconn sock c cs) ≡ (
        if is_alive sock cs then getconnptr j cs else if sock == j then some c else getconnptr j cs)
unfolding newconn
getconnptr-newconn j sock c cs = ground arith

pub getconnptr-deleconn :
    (j sock : ℕ) (cs : Conns)
    → getconnptr j (deleconn sock cs) ≡ (if sock == j then none else getconnptr j cs)
unfolding getconnptr deleconn
getconnptr-deleconn j sock [] = ground arith
getconnptr-deleconn j sock ((s, c) ∷ cs) = ground (arith, getconnptr-deleconn j sock cs)

abbrev pub map_option {ℓ} : {A : Type ℓ} → (A → A) → Option A → Option A
map_option f none = none
map_option f (some a) = some (f a)

pub getconnptr-modify :
    (j sock : ℕ) (f : Connection → Connection) (cs : Conns)
    → getconnptr j (modify sock f cs)
      ≡ (if sock == j then map_option f (getconnptr j cs) else getconnptr j cs)
unfolding getconnptr modify
getconnptr-modify j sock f [] = ground arith
getconnptr-modify j sock f ((s, c) ∷ cs) = ground (arith, getconnptr-modify j sock f cs)
