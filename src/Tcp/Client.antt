-- ===== src/Tcp/Client.antt =====
-- tcp_t/protocol_cus/client_tcp.hpp: `calclientIO`, over the equations that it draws, what `write` and
-- `read` give, and the static buffer of `recvmessage` in the process of the client.
use linux_learning_machine_c.Base.{Bool, true, false, none, some, ◌>>=◌, List, [], ◌∷◌, ◌++◌, Bytes}
use linux_learning_machine_c.Cal.{Equation, Result}
use linux_learning_machine_c.Protocol.Frame.{decode, encode}
use linux_learning_machine_c.Protocol.Message.Codec.{Codec}
use linux_learning_machine_c.Reactor.Kernel.{Read}
use linux_learning_machine_c.Tcp.Receive.{Stop, quits, message, no_message, overflowed, receive}
use linux_learning_machine_c.Tcp.Session.{can_write, later_writes}

-- What the server was sent and the results that were shown: of a client that has stopped or waits for
-- a result, or that is
-- behind these equations, with its buffer and the reads that are left; or an undefined operation or
-- an exception.
pub data Asked : Type 0 where
  stopped : Stop → Bytes → List Result → Asked
  going : Bytes → List Result → Bytes → List Read → Asked
  broke : Asked

abbrev pub after_request : Bytes → Asked → Asked
after_request req (stopped how sent rs) = stopped how (req ++ sent) rs
after_request req (going sent rs b reads) = going (req ++ sent) rs b reads
after_request req broke = broke

abbrev pub after_result : Result → Asked → Asked
after_result r (stopped how sent rs) = stopped how sent (r ∷ rs)
after_result r (going sent rs b reads) = going sent (r ∷ rs) b reads
after_result r broke = broke

module _ (c : Codec) where
  unfoldable pub calclient_io : List Equation → List Bool → List Read → Bytes → Asked
  calclient_io [] ws reads b = going [] [] b reads
  calclient_io (e ∷ es) ws reads b = elim (can_write ws) [
    | false ↦ stopped quits [] []
    | true ↦ after_request (encode (c.write_request e)) (elim (receive reads b) [
      | no_message how left ↦ stopped how [] []
      | overflowed ↦ broke
      | message m left rest ↦ elim (decode m >>= c.read_response) [
        | none ↦ broke
        | some r ↦ after_result r (calclient_io es (later_writes ws) rest left)
      ]
    ])
  ]
