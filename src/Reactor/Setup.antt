-- ===== src/Reactor/Setup.antt =====
-- IO/reactor: `server_reactor::init`, with what it calls of tcp_sock.hpp, epoller.hpp and util.hpp.
use mathlib.Core.Path.{subst}
use linux_learning_machine_c.Base.{
  All, ℕ, ◌≡◌, refl, Bool, true, false, if◌then◌else◌, Option, none, some, List, [], ◌∷◌, Bytes,
  arith,
}
use linux_learning_machine_c.Reactor.Connection.{
  Connection, ReadCallback, new_connection, reg, settime,
}
use linux_learning_machine_c.Reactor.Manager.{newconn, getconnptr}
use linux_learning_machine_c.Reactor.Kernel.{set_nonblock, epoll_add, reads_only, Event}
use linux_learning_machine_c.Reactor.World.{World, ok}
use linux_learning_machine_c.Reactor.Trace.{armed}
use linux_learning_machine_c.Reactor.Invariant.{Inv}
use linux_learning_machine_c.Reactor.Listener.{IsListener, run-keeps_listener}
use linux_learning_machine_c.Reactor.LoopInvariant.{RoundAdds, run-Inv}
use linux_learning_machine_c.Reactor.Loop.{run}

-- `enum ERR` of error.hpp, from `USAGE_ERR = 1` on.
pub data Err : Type 0 where
  usage_err sock_err bind_err listen_err connect_err epoll_create_err sock_set_nonblock_err
        epoll_add_sock_err :
      Err

-- What the calls of `init` are answered: a descriptor or -1, or whether they succeed.
pub record Answers : Type 0 where
  pub epoll_create : Option ℕ
  pub socket : Option ℕ
  pub bind : Bool
  pub listen : Bool
  pub fcntl : Bool
  pub epoll_ctl : Bool

-- `exit(code)`, or going on with a value.
pub data Started {ℓ} (A : Type ℓ) : Type ℓ where
  exits : Err → Started A
  goes_on : A → Started A

infixl 5 ◌>>=◌
abbrev pub ◌>>=◌ {ℓ κ} : {A : Type ℓ} {B : Type κ} → Started A → (A → Started B) → Started B
exits e >>= f = exits e
goes_on a >>= f = f a

-- `epoller::create`
unfoldable pub create : Answers → Started ℕ
create a = elim a.epoll_create [ none ↦ exits epoll_create_err | some fd ↦ goes_on fd ]

-- `tcp_sock::_socket`, `_bind` and `_listen`
unfoldable pub open_socket : Answers → Started ℕ
open_socket a = elim a.socket [ none ↦ exits sock_err | some fd ↦ goes_on fd ]

unfoldable pub bind_socket : Answers → Started (Unit {0})
bind_socket a = if a.bind then goes_on tt else exits bind_err

unfoldable pub listen_socket : Answers → Started (Unit {0})
listen_socket a = if a.listen then goes_on tt else exits listen_err

-- `util::SetNonblock`, whose second `fcntl` is not looked at.
unfoldable pub make_nonblock : Answers → Started (Unit {0})
make_nonblock a = if a.fcntl then goes_on tt else exits sock_set_nonblock_err

unfoldable pub watch_socket : Answers → Started (Unit {0})
watch_socket a = if a.epoll_ctl then goes_on tt else exits epoll_add_sock_err

-- The connection of the listening socket: it accepts, and is never timed out.
unfoldable pub listener : ℕ → Connection
listener fd = settime 1 0 (reg (new_connection fd) (some ReadCallback.acceptor) none none)

-- `init`: the descriptor of the listening socket and the server's first state.
unfoldable pub init : Answers → ℕ → Started (ℕ × World)
unfolding create open_socket bind_socket listen_socket make_nonblock watch_socket listener
init a now = do
  epfd ← create a
  fd ← open_socket a
  bound ← bind_socket a
  listening ← listen_socket a
  nonblocking ← make_nonblock a
  watching ← watch_socket a
  goes_on (
    fd,
    record {
      conns = newconn fd (listener fd) [];
      clock = now;
      writes = [];
      trace = epoll_add fd reads_only ∷ set_nonblock fd ∷ [];
    },
  )

-- The state of a server that listens on `fd`.
pub record IsReady (fd : ℕ) (w : World) : Type 0 where
  pub inv : Inv w
  pub conn : Connection
  pub listens : getconnptr fd w.conns ≡ some conn
  pub is_listener : IsListener conn
  pub longlive : conn.time.longlive ≡ 1

ready :
    (fd now : ℕ)
    → IsReady fd (record {
      conns = newconn fd (listener fd) [];
      clock = now;
      writes = [];
      trace = epoll_add fd reads_only ∷ set_nonblock fd ∷ [];
    })
unfolding newconn getconnptr listener armed
ready fd now = record {
  inv = record { tracked = λ j. ground arith; sound = tt };
  conn = listener fd;
  listens = ground arith;
  is_listener = (refl, refl);
  longlive = refl;
}

abbrev pub OutcomeOfInit : Answers → Started (ℕ × World) → Type 0
OutcomeOfInit a (exits epoll_create_err) = a.epoll_create ≡ none
OutcomeOfInit a (exits sock_err) = a.socket ≡ none
OutcomeOfInit a (exits bind_err) = a.bind ≡ false
OutcomeOfInit a (exits listen_err) = a.listen ≡ false
OutcomeOfInit a (exits sock_set_nonblock_err) = a.fcntl ≡ false
OutcomeOfInit a (exits epoll_add_sock_err) = a.epoll_ctl ≡ false
OutcomeOfInit a (exits usage_err) = ⊥
OutcomeOfInit a (exits connect_err) = ⊥
OutcomeOfInit a (goes_on (fd, w)) = (a.socket ≡ some fd) × IsReady fd w

by_answers :
    (epfd socket : Option ℕ) (bind listen fcntl epoll_ctl : Bool) (now : ℕ)
    → let a : Answers = record {
      epoll_create = epfd;
      socket = socket;
      bind = bind;
      listen = listen;
      fcntl = fcntl;
      epoll_ctl = epoll_ctl;
    } in
      OutcomeOfInit a (init a now)
unfolding init
by_answers none socket bind listen fcntl epoll_ctl now = refl
by_answers (some _) none bind listen fcntl epoll_ctl now = refl
by_answers (some _) (some fd) false listen fcntl epoll_ctl now = refl
by_answers (some _) (some fd) true false fcntl epoll_ctl now = refl
by_answers (some _) (some fd) true true false epoll_ctl now = refl
by_answers (some _) (some fd) true true true false now = refl
by_answers (some _) (some fd) true true true true now = (refl, ready fd now)

-- `init` exits only with the code of a call that failed; otherwise the server listens on the socket
-- that it opened, its invariant holds, and the listening socket is never timed out.
pub init_outcome : (a : Answers) (now : ℕ) → OutcomeOfInit a (init a now)
init_outcome a now = by_answers a.epoll_create a.socket a.bind a.listen a.fcntl a.epoll_ctl now

-- A server that `init` has started, after any run that meets no fault and in which `epoll_ctl` adds each
-- new descriptor: its invariant holds, and its
-- listening socket stands as `init` left it.
pub run-IsReady :
    (callback : Bytes → Bytes → Option (Bytes × Bytes)) (a : Answers) (now fd : ℕ) (w w' : World)
    (rounds : List (ℕ × List Event))
    → init a now ≡ goes_on (fd, w)
    → run callback rounds w ≡ ok w'
    → All RoundAdds rounds
    → IsReady fd w'
run-IsReady callback a now fd w w' rounds started h added =
    let (_, r) = subst (OutcomeOfInit a) started (init_outcome a now) in
    record {
      inv = run-Inv callback rounds w w' h added r.inv;
      conn = r.conn;
      listens = run-keeps_listener callback fd r.conn r.is_listener rounds w w' h r.listens;
      is_listener = r.is_listener;
      longlive = r.longlive;
    }
