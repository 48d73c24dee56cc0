-- ===== src/Tcp/Session.antt =====
-- tcp_t/protocol_cus/server_tcp.hpp: `calserverIO`, the session with one client.
use linux_learning_machine_c.Base.{
  ℕ, zero, suc, Bool, true, false, none, some, List, [], ◌∷◌, ◌++◌, Bytes, length,
}
use linux_learning_machine_c.Protocol.Message.Codec.{Codec}
use linux_learning_machine_c.Service.Calculator.{answer}
use linux_learning_machine_c.Reactor.Kernel.{Read}
use linux_learning_machine_c.Tcp.Receive.{Stop, message, no_message, overflowed, receive}

-- Why the session is over or waits, what the client was sent, and the static buffer; an undefined operation or an exception;
-- or the end of the fuel.
pub data Session : Type 0 where
  ended : Stop → Bytes → Bytes → Session
  write_failed : Bytes → Bytes → Session
  broke : Session
  exhausted : Session

abbrev pub after_sending : Bytes → Session → Session
after_sending resp (ended how sent b) = ended how (resp ++ sent) b
after_sending resp (write_failed sent b) = write_failed (resp ++ sent) b
after_sending resp broke = broke
after_sending resp exhausted = exhausted

-- The next answer of `write`; a list that ends goes on with success.
abbrev pub can_write : List Bool → Bool
can_write [] = true
can_write (w ∷ ws) = w

abbrev pub later_writes : List Bool → List Bool
later_writes [] = []
later_writes (w ∷ ws) = ws

module _ (c : Codec) where
  -- The loop. Each round takes a read or more off the list.
  unfoldable pub serve_client : ℕ → List Read → List Bool → Bytes → Session
  serve_client zero rs ws buffer = exhausted
  serve_client (suc fuel) rs ws buffer = elim (receive rs buffer) [
    | no_message how b ↦ ended how [] b
    | overflowed ↦ broke
    | message m b rest ↦ elim (answer c m) [
      | none ↦ broke
      | some resp ↦ elim (can_write ws) [
        | true ↦ after_sending resp (serve_client fuel rest (later_writes ws) b)
        | false ↦ write_failed [] b
      ]
    ]
  ]

  -- `calserverIO`
  unfoldable pub calserver_io : List Read → List Bool → Bytes → Session
  unfolding serve_client
  calserver_io rs ws buffer = serve_client (suc (length rs)) rs ws buffer
