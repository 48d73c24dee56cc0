-- ===== src/Multiplex/Sock.antt =====
-- IO/select_server/sock.hpp: opening the listening socket, as the three servers do it in `init`.
use linux_learning_machine_c.Base.{
  ℕ, ◌≡◌, ◌↔◌, Bool, true, if◌then◌else◌, Option, none, some, arith,
}
use linux_learning_machine_c.Reactor.Setup.{
  sock_err, bind_err, listen_err, Started, exits, goes_on, ◌>>=◌,
}

-- What the calls are answered: a descriptor or -1, or whether they succeed.
pub record Opening : Type 0 where
  pub socket : Option ℕ
  pub bind : Bool
  pub listen : Bool

-- `sock::_socket`
abbrev pub open_sock : Option ℕ → Started ℕ
open_sock none = exits sock_err
open_sock (some fd) = goes_on fd

-- `sock::_bind` and `sock::_listen`
abbrev pub bind_port : Bool → Started (Unit {0})
bind_port b = if b then goes_on tt else exits bind_err

abbrev pub listen_on : Bool → Started (Unit {0})
listen_on b = if b then goes_on tt else exits listen_err

-- The first three calls of `init`.
unfoldable pub listening : Opening → Started ℕ
listening o = do
  fd ← open_sock o.socket
  bound ← bind_port o.bind
  listens ← listen_on o.listen
  goes_on fd

-- The socket listens if and only if every call succeeded.
pub listening-goes_on :
    (o : Opening) (fd : ℕ)
    → (listening o ≡ goes_on fd) ↔ ((o.socket ≡ some fd) × (o.bind ≡ true) × (o.listen ≡ true))
unfolding listening
listening-goes_on o fd = ground arith
