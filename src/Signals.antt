-- ===== src/Signals.antt =====
-- signal_t/signal_t.cc: the process that blocks two signals, shows those that are pending and lets
-- them through every twelfth round. The signal mask, the pending set and the delivery of a signal are
-- those of POSIX.
pub mod Held
pub mod Rounds
mod Tests
use linux_learning_machine_c.Base.{
  ℕ, zero, suc, ◌==◌, ltb, if◌then◌else◌, Bool, true, false, List, [], ◌∷◌, ◌++◌,
}

-- `sigset_t`: `sigismember`
abbrev pub Sigset : Type 0
Sigset = ℕ → Bool

abbrev pub sigemptyset : Sigset
sigemptyset signo = false

abbrev pub sigaddset : ℕ → Sigset → Sigset
sigaddset sig set signo = if signo == sig then true else set signo

abbrev pub sigdelset : ℕ → Sigset → Sigset
sigdelset sig set signo = if signo == sig then false else set signo

-- `caught` are the signals that `sighandler` has printed, oldest first, and `shown` the lines of
-- `showpending`.
pub record Process : Type 0 where
  pub mask : Sigset
  pub pending : Sigset
  pub caught : List ℕ
  pub shown : List (List Bool)

-- A signal arrives.
abbrev pub arrive : ℕ → Process → Process
arrive sig p =
    if p.mask sig
    then record p { pending = sigaddset sig p.pending }
    else record p { caught = p.caught ++ sig ∷ [] }

abbrev pub arrive_all : List ℕ → Process → Process
arrive_all [] p = p
arrive_all (sig ∷ sigs) p = arrive_all sigs (arrive sig p)

-- One signal is delivered, if it is pending and not blocked.
abbrev pub deliver : ℕ → Process → Process
deliver sig p =
    if p.pending sig
    then (if p.mask sig
        then p
        else record p { pending = sigdelset sig p.pending; caught = p.caught ++ sig ∷ [] })
    else p

-- The signals that `main` handles and blocks.
abbrev pub vsige : List ℕ
vsige = 2 ∷ 3 ∷ []

abbrev pub deliver_all : List ℕ → Process → Process
deliver_all [] p = p
deliver_all (sig ∷ sigs) p = deliver_all sigs (deliver sig p)

-- The two signals in the order in which the kernel delivers those that are pending; POSIX leaves it
-- open, so it is an argument.
abbrev pub in_order : Bool → List ℕ
in_order two_first = if two_first then 2 ∷ 3 ∷ [] else 3 ∷ 2 ∷ []

-- `sigprocmask(SIG_SETMASK, ...)`: what is no longer blocked is delivered.
abbrev pub sigprocmask : Bool → Sigset → Process → Process
sigprocmask two_first set p = deliver_all (in_order two_first) (record p { mask = set })

-- The locals of `main`.
pub record State : Type 0 where
  pub process : Process
  pub block : Sigset
  pub oblock : Sigset
  pub cnt : ℕ

abbrev pub sigset_of : List ℕ → Sigset
sigset_of [] = sigemptyset
sigset_of (sig ∷ sigs) = sigaddset sig (sigset_of sigs)

unfoldable pub blocksignal : Bool → State → State
blocksignal two_first s = record s {
  process = sigprocmask two_first (sigset_of vsige) s.process;
  block = sigset_of vsige;
  oblock = s.process.mask;
}

unfoldable pub cancelblock : Bool → State → State
cancelblock two_first s = record s {
  process = sigprocmask two_first s.oblock s.process;
  block = s.process.mask;
}

-- `showpending`, for the signals from `n` on downwards.
abbrev pub bits : ℕ → Sigset → List Bool
bits zero pending = []
bits (suc n) pending = pending (suc n) ∷ bits n pending

abbrev pub maxsign : ℕ
maxsign = 31

-- A line of `showpending`, and `++cnt`.
unfoldable pub show : State → State
show s = record s {
  process = record s.process { shown = s.process.shown ++ bits maxsign s.process.pending ∷ [] };
  cnt = suc s.cnt;
}

-- A round of `main`.
unfoldable pub round : Bool → State → State
unfolding show blocksignal cancelblock
round two_first s =
    if ltb (suc s.cnt) 12
    then show s
    else record (blocksignal two_first (cancelblock two_first (show s))) { cnt = 0 }

-- `main` in front of its loop, with nothing blocked or pending.
unfoldable pub started : Bool → State
unfolding blocksignal
started two_first = blocksignal two_first (record {
  process = record { mask = sigemptyset; pending = sigemptyset; caught = []; shown = [] };
  block = sigemptyset;
  oblock = sigemptyset;
  cnt = 0;
})

-- Rounds of `main`, each with the signals that arrive in front of it.
unfoldable pub rounds : Bool → List (List ℕ) → State → State
unfolding round
rounds two_first [] s = s
rounds two_first (sigs ∷ rs) s =
    rounds two_first rs (round two_first (record s { process = arrive_all sigs s.process }))
