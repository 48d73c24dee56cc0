-- ===== src/Reactor/Connection.antt =====
-- IO/reactor/reactor_server.hpp: `conntm_t`, `connection` and what the handlers do to one.
use linux_learning_machine_c.Base.{ℕ, ◌==◌, Bool, Option, none, [], Bytes}

-- The methods of `server_reactor` that are bound as callbacks.
pub data ReadCallback : Type 0 where
  acceptor recver : ReadCallback

pub data WriteCallback : Type 0 where
  writer : WriteCallback

pub data ExceptCallback : Type 0 where
  excepter : ExceptCallback

-- `longlive` is 1 for a connection that is never timed out.
pub record ConnTime : Type 0 where
  pub longlive : ℕ
  pub lasttime : ℕ

-- `struct connection`. A callback that is `nullptr` is `none`; `_psvr` is the one server.
pub record Connection : Type 0 where
  pub sock : ℕ
  pub inbuf : Bytes
  pub outbuf : Bytes
  pub on_read : Option ReadCallback
  pub on_write : Option WriteCallback
  pub on_except : Option ExceptCallback
  pub time : ConnTime

-- `new connection(sock, ps)`. The source leaves `_time` unset; every caller sets it at once.
abbrev pub new_connection : ℕ → Connection
new_connection sock = record {
  sock = sock;
  inbuf = [];
  outbuf = [];
  on_read = none;
  on_write = none;
  on_except = none;
  time = record { longlive = 0; lasttime = 0 };
}

-- `connection::reg`
abbrev pub reg :
    Connection → Option ReadCallback → Option WriteCallback → Option ExceptCallback → Connection
reg c recv write except = record c { on_read = recv; on_write = write; on_except = except }

-- `connection::settime`
abbrev pub settime : ℕ → ℕ → Connection → Connection
settime live newtime c = record c { time = record { longlive = live; lasttime = newtime } }

-- `connection::is_longlive`
abbrev pub is_longlive : Connection → Bool
is_longlive c = c.time.longlive == 1
