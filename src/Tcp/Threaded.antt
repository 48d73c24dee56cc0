-- ===== src/Tcp/Threaded.antt =====
-- tcp_t/test/server_tcp.hpp: the echo server with a thread for each client. `run` hands each thread a
-- pointer into its local `t`, a `pthread` of pthread_s.hpp there, whose storage is the same in every
-- round. `pthread_create` is taken to succeed.
pub mod Service
use linux_learning_machine_c.Base.{
  ℕ, suc, ◌==◌, ltb, if◌then◌else◌, Bool, true, false, ◌≡◌, Option, none, some, List, [], ◌∷◌, ◌++◌,
  get_elem?, set, total, Bytes, codes, c_str, length,
}
use linux_learning_machine_c.Reactor.Kernel.{Read}

-- How far a thread is: created, but it has not yet read `pd->_arg`; serving the descriptor of the
-- `ts_data` that it found; behind `close` and `delete`.
pub data Worker : Type 0 where
  created : Worker
  serving : ℕ → Worker
  done : ℕ → Worker

-- `local` is the local `t` of `run`, as the descriptor that its argument leads to, or `none`
-- where it has been destroyed; `accepted` and `closed` are what `accept` gave out and what was closed.
pub record Server : Type 0 where
  pub local : Option ℕ
  pub threads : List Worker
  pub accepted : List ℕ
  pub closed : List ℕ

abbrev pub started : Server
started = record { local = none; threads = []; accepted = []; closed = [] }

abbrev pub worker : ℕ → Worker → Server → Server
worker i w s = record s { threads = set s.threads i w }

-- A thread that has not read its argument.
abbrev pub is_created : Worker → ℕ
is_created created = 1
is_created (serving fd) = 0
is_created (done fd) = 0

-- A step; a read of the argument behind the end of the life of the local is `fault`.
pub data Step (s : Server) : Option Server → Type 0 where
  connect :
      (fd : ℕ)
      → s.local ≡ none
      → Step s (
          some (record s {
            local = some fd;
            threads = s.threads ++ created ∷ [];
            accepted = s.accepted ++ fd ∷ [];
          }))
  end_round : (fd : ℕ) → s.local ≡ some fd → Step s (some (record s { local = none }))
  fetch :
      (i fd : ℕ)
      → get_elem? s.threads i ≡ some created
      → s.local ≡ some fd
      → Step s (some (worker i (serving fd) s))
  fault : (i : ℕ) → get_elem? s.threads i ≡ some created → s.local ≡ none → Step s none
  finish :
      (i fd : ℕ)
      → get_elem? s.threads i ≡ some (serving fd)
      → Step s (some (record (worker i (done fd) s) { closed = s.closed ++ fd ∷ [] }))

-- The rounds of `run` end only when every thread has read its argument.
abbrev pub IsPrompt : {s : Server} {o : Option Server} → Step s o → Type 0
IsPrompt (connect fd e) = Unit {0}
IsPrompt {s} (end_round fd e) = total is_created s.threads ≡ 0
IsPrompt (fetch i fd e f) = Unit {0}
IsPrompt (fault i e f) = Unit {0}
IsPrompt (finish i fd e) = Unit {0}

pub data Run : Server → Option Server → Type 0 where
  stop : {s : Server} → Run s (some s)
  broken : {s : Server} → Step s none → Run s none
  step : {s t : Server} {o : Option Server} → Step s (some t) → Run t o → Run s o

abbrev pub EachPrompt : {s : Server} {o : Option Server} → Run s o → Type 0
EachPrompt stop = Unit {0}
EachPrompt (broken x) = IsPrompt x
EachPrompt (step x run) = IsPrompt x × EachPrompt run

abbrev pub response : Bytes
response = codes "receive message sucess"

-- `serviceIO`, over what `read` and `write` give: how often the response was sent, or `none` for
-- `buffer[n] = 0` behind the end of the buffer.
abbrev pub after_response : Option ℕ → Option ℕ
after_response none = none
after_response (some n) = some (suc n)

unfoldable pub service_io : List Read → List Bool → Option ℕ
service_io [] ws = some 0
service_io (Read.closed ∷ rs) ws = some 0
service_io (Read.read_error e ∷ rs) ws = some 0
service_io (Read.got chunk ∷ rs) [] =
    let rest = after_response (service_io rs []) in if ltb (length chunk) 1024 then rest else none
service_io (Read.got chunk ∷ rs) (w ∷ ws) =
    let rest = after_response (service_io rs ws) in
    if ltb (length chunk) 1024 then if w then rest else some 0 else none
