-- ===== src/Tcp/Receive.antt =====
-- tcp_t/protocol_cus/protocol.hpp: `recvmessage` on a descriptor, over what `read` gives. Its buffer is
-- static: it is an argument, and what is left of it a result.
use linux_learning_machine_c.Base.{
  ℕ, ltb, if◌then◌else◌, none, some, List, [], ◌∷◌, ◌++◌, Bytes, c_str, length,
}
use linux_learning_machine_c.Protocol.Frame as Frame
use linux_learning_machine_c.Reactor.Kernel.{Read}

-- Why no message comes: `recvmessage` returns `false`, or it waits in `read`.
pub data Stop : Type 0 where
  quits waits : Stop

-- What a call comes to: a message, with the buffer and the reads that are left; no message, with the
-- buffer; or `tmp[n] = 0` behind the end of `tmp`.
pub data Received : Type 0 where
  message : Bytes → Bytes → List Read → Received
  no_message : Stop → Bytes → Received
  overflowed : Received

abbrev pub tmp_size : ℕ
tmp_size = 1024

-- The loop: it reads before it looks at the buffer. Behind the reads that are listed it waits.
unfoldable pub receive : List Read → Bytes → Received
receive [] buffer = no_message waits buffer
receive (Read.closed ∷ rs) buffer = no_message quits buffer
receive (Read.read_error e ∷ rs) buffer = no_message quits buffer
receive (Read.got tmp ∷ rs) buffer =
    let buffer' = buffer ++ c_str tmp in
    let more = receive rs buffer' in
    if ltb (length tmp) tmp_size
    then (elim (Frame.recvmessage buffer') [ none ↦ more | some (m, rest) ↦ message m rest rs ])
    else overflowed
