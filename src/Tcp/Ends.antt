-- ===== src/Tcp/Ends.antt =====
-- tcp_t/protocol_cus: a session comes to an end when the client goes.
use linux_learning_machine_c.Base.{
  ℕ, zero, suc, ◌<◌, ◌≡◌, ◌≢◌, refl, sym, ◌∙◌, Bool, Bool-cases, inl, inr, ltb, Option-cases, List,
  [], ◌∷◌, ◌++◌, Bytes, c_str, length, arith,
}
use linux_learning_machine_c.Protocol.Frame as Frame
use linux_learning_machine_c.Protocol.Message.Codec.{Codec}
use linux_learning_machine_c.Service.Calculator.{answer}
use linux_learning_machine_c.Reactor.Kernel.{Read}
use linux_learning_machine_c.Tcp.Receive.{
  quits, waits, Received, message, no_message, overflowed, receive, tmp_size,
}
use linux_learning_machine_c.Tcp.Session.{
  Session, ended, write_failed, broke, exhausted, after_sending, can_write, later_writes,
  serve_client, calserver_io,
}
use linux_learning_machine_c.Tcp.Stream.{
  Accounts, receive-Accounts, on_message, round, on_message-ended,
}

-- The client closes, or `read` fails.
abbrev pub Quits : List Read → Type 0
Quits [] = ⊥
Quits (Read.closed ∷ rs) = Unit
Quits (Read.read_error e ∷ rs) = Unit
Quits (Read.got tmp ∷ rs) = Quits rs

abbrev StillQuits : Received → Type 0
StillQuits (message m left rest) = Quits rest
StillQuits (no_message how left) = how ≡ quits
StillQuits overflowed = Unit

receive-StillQuits : (rs : List Read) (b : Bytes) → Quits rs → StillQuits (receive rs b)
unfolding receive
receive-StillQuits [] b q = absurd q
receive-StillQuits (Read.closed ∷ rs) b q = refl
receive-StillQuits (Read.read_error e ∷ rs) b q = refl
receive-StillQuits (Read.got tmp ∷ rs) b q = elim (Bool-cases (ltb (length tmp) tmp_size)) [
  | inr full ↦ rw full tt
  | inl room ↦ elim (Option-cases (Frame.recvmessage (b ++ c_str tmp))) [
    | inl e ↦ rw (room, e) (receive-StillQuits rs (b ++ c_str tmp) q)
    | inr ((m, left), e) ↦ rw (room, e) q
  ]
]

after_sending-exhausted :
    (resp : Bytes) (x : Session) → after_sending resp x ≡ exhausted → x ≡ exhausted
after_sending-exhausted resp (ended how s b) h = cc
after_sending-exhausted resp (write_failed s b) h = cc
after_sending-exhausted resp broke h = cc
after_sending-exhausted resp exhausted h = refl

module _ (c : Codec) where
  on_message-ne-exhausted :
      (f : ℕ) (ws : List Bool) (m b : Bytes) (rest : List Read)
      → serve_client c f rest (later_writes ws) b ≢ exhausted
      → on_message c f ws m b rest ≢ exhausted
  on_message-ne-exhausted f ws m b rest ih h = elim (Option-cases (answer c m)) [
    | inl e ↦ cc (rw (e, on_message) at h)
    | inr (resp, e) ↦ elim (Bool-cases (can_write ws)) [
      | inr stop ↦ cc (rw (e, stop, on_message) at h)
      | inl go ↦ ih (
          after_sending-exhausted resp (serve_client c f rest (later_writes ws) b)
            (rw (e, go, on_message) at h))
    ]
  ]

  Enough : ℕ → Type 0
  Enough f =
      (rs : List Read) (ws : List Bool) (b : Bytes)
      → length rs < f
      → serve_client c f rs ws b ≢ exhausted

  received-Enough :
      (f : ℕ)
      → Enough f
      → (rs : List Read) (ws : List Bool) (b : Bytes) (x : Received) → receive rs b ≡ x
      → Accounts rs b x
      → length rs < suc f
      → serve_client c (suc f) rs ws b ≢ exhausted
  unfolding Enough
  received-Enough f ih rs ws b (no_message how' l) e acc small h =
      cc (sym (round c f rs ws b (no_message how' l) e) ∙ h)
  received-Enough f ih rs ws b overflowed e acc small h =
      cc (sym (round c f rs ws b overflowed e) ∙ h)
  received-Enough f ih rs ws b (message m l rest) e (cut, less) small h =
      on_message-ne-exhausted f ws m l rest (ih rest (later_writes ws) l (omega arith))
        (sym (round c f rs ws b (message m l rest) e) ∙ h)

  serve_client-Enough : (f : ℕ) → Enough f
  unfolding Enough
  serve_client-Enough zero rs ws b small = ground arith
  serve_client-Enough (suc f) rs ws b small =
      received-Enough f (serve_client-Enough f) rs ws b (receive rs b) refl (receive-Accounts rs b)
        small

  calserver_io-ne-exhausted :
      (rs : List Read) (ws : List Bool) (b : Bytes) → calserver_io c rs ws b ≢ exhausted
  unfolding calserver_io Enough
  calserver_io-ne-exhausted rs ws b = serve_client-Enough (suc (length rs)) rs ws b (omega arith)

  received-ne-waits :
      (f : ℕ)
      → ((rs : List Read) (ws : List Bool) (b sent left : Bytes)
          → Quits rs
          → serve_client c f rs ws b ≢ ended waits sent left)
      → (rs : List Read) (ws : List Bool) (b sent left : Bytes) (x : Received) → receive rs b ≡ x
      → StillQuits x
      → serve_client c (suc f) rs ws b ≢ ended waits sent left
  received-ne-waits f ih rs ws b sent left (no_message how l) e q h =
      cc (q, sym (round c f rs ws b (no_message how l) e) ∙ h)
  received-ne-waits f ih rs ws b sent left overflowed e q h =
      cc (sym (round c f rs ws b overflowed e) ∙ h)
  received-ne-waits f ih rs ws b sent left (message m l rest) e q h =
      let (resp, s, a, x, y) =
        on_message-ended c f ws m l rest waits sent left
          (sym (round c f rs ws b (message m l rest) e) ∙ h) in
      ih rest (later_writes ws) l s left q x

  serve_client-ne-waits :
      (f : ℕ) (rs : List Read) (ws : List Bool) (b sent left : Bytes)
      → Quits rs
      → serve_client c f rs ws b ≢ ended waits sent left
  unfolding serve_client
  serve_client-ne-waits zero rs ws b sent left q h = cc h
  serve_client-ne-waits (suc f) rs ws b sent left q h =
      received-ne-waits f (serve_client-ne-waits f) rs ws b sent left (receive rs b) refl
        (receive-StillQuits rs b q) h

  -- Where the client closes at some time or a `read` fails, the session does not go on waiting,
  -- whatever the client sent and whether it could be answered; and the fuel of `calserver_io` is
  -- enough to see the session end.
  pub calserver_io_ends :
      (rs : List Read) (ws : List Bool) (b sent left : Bytes)
      → Quits rs
      → (calserver_io c rs ws b ≢ ended waits sent left) × (calserver_io c rs ws b ≢ exhausted)
  unfolding calserver_io
  calserver_io_ends rs ws b sent left q = (
    serve_client-ne-waits (suc (length rs)) rs ws b sent left q,
    calserver_io-ne-exhausted rs ws b,
  )
