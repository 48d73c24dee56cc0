-- ===== src/Reactor/Trace.antt =====
-- The system calls of the server of IO/reactor read back: which descriptors epoll watches, and what a
-- client was sent.
use linux_learning_machine_c.Base.{
  ℕ, ◌≡◌, Bool, true, false, ◌==◌, if◌then◌else◌, Option, none, some, List, [], ◌∷◌, ◌++◌, Bytes,
}
use linux_learning_machine_c.Reactor.Manager.{is_some}
use linux_learning_machine_c.Reactor.Kernel.{
  Interest, Call, set_nonblock, epoll_add, epoll_mod, epoll_del, close, wrote,
}

-- `EPOLL_CTL_MOD` needs a descriptor that is watched.
abbrev pub rearm : Interest → Option Interest → Option Interest
rearm i none = none
rearm i (some old) = some i

-- What epoll watches `fd` for, after the calls of the trace.
unfoldable pub armed : ℕ → List Call → Option Interest
armed fd [] = none
armed fd (set_nonblock g ∷ t) = armed fd t
armed fd (epoll_add g i ∷ t) = if g == fd then some i else armed fd t
armed fd (epoll_mod g i ∷ t) = if g == fd then rearm i (armed fd t) else armed fd t
armed fd (epoll_del g ∷ t) = if g == fd then none else armed fd t
armed fd (close g ∷ t) = armed fd t
armed fd (wrote g b ∷ t) = armed fd t

-- The bytes that `fd` was sent, oldest first.
unfoldable pub sent_to : ℕ → List Call → Bytes
sent_to fd [] = []
sent_to fd (set_nonblock g ∷ t) = sent_to fd t
sent_to fd (epoll_add g i ∷ t) = sent_to fd t
sent_to fd (epoll_mod g i ∷ t) = sent_to fd t
sent_to fd (epoll_del g ∷ t) = sent_to fd t
sent_to fd (close g ∷ t) = sent_to fd t
sent_to fd (wrote g b ∷ t) = if g == fd then sent_to fd t ++ b else sent_to fd t

abbrev pub watched : ℕ → List Call → Bool
watched fd t = is_some (armed fd t)

-- No call on a descriptor that epoll does not watch, and none is closed while it is watched.
abbrev pub IsSound : List Call → Type 0
IsSound [] = Unit
IsSound (set_nonblock g ∷ t) = IsSound t
IsSound (epoll_add g i ∷ t) = IsSound t
IsSound (epoll_mod g i ∷ t) = (watched g t ≡ true) × IsSound t
IsSound (epoll_del g ∷ t) = (watched g t ≡ true) × IsSound t
IsSound (close g ∷ t) = (watched g t ≡ false) × IsSound t
IsSound (wrote g b ∷ t) = (watched g t ≡ true) × IsSound t
