-- ===== src/Tcp/Stream.antt =====
-- tcp_t/protocol_cus: the session with one client, compared with `cal_IO` on the whole stream.
use linux_learning_machine_c.Base.{
  ℕ, zero, suc, ◌<◌, ◌≡◌, refl, sym, ◌∙◌, ap, Bool, true, false, Bool-cases, inl, inr, ltb, none,
  some, Option-cases, List, [], ◌∷◌, ◌++◌, append-nil, append_assoc, Bytes, c_str, length, arith,
}
use linux_learning_machine_c.Protocol.Frame as Frame
use linux_learning_machine_c.Protocol.Frame.Cut.{recvmessage-append}
use linux_learning_machine_c.Protocol.Message.Codec.{Codec}
use linux_learning_machine_c.Service.Calculator.{answer, cal_io}
use linux_learning_machine_c.Service.Calculator.Refine.{cal_io_round}
use linux_learning_machine_c.Reactor.Kernel.{Read}
use linux_learning_machine_c.Tcp.Receive.{
  Stop, Received, message, no_message, overflowed, receive, tmp_size,
}
use linux_learning_machine_c.Tcp.Session.{
  Session, ended, write_failed, broke, exhausted, after_sending, can_write, later_writes,
  serve_client, calserver_io,
}

-- The bytes that arrive before the client quits.
abbrev pub bytes_of : List Read → Bytes
bytes_of [] = []
bytes_of (Read.closed ∷ rs) = []
bytes_of (Read.read_error e ∷ rs) = []
bytes_of (Read.got tmp ∷ rs) = c_str tmp ++ bytes_of rs

-- What a call has come to, with regard to all that arrives.
abbrev pub Accounts : List Read → Bytes → Received → Type 0
Accounts rs b (message m left rest) =
    (Frame.recvmessage (b ++ bytes_of rs) ≡ some (m, left ++ bytes_of rest))
    × (length rest < length rs)
Accounts rs b (no_message how left) = left ≡ b ++ bytes_of rs
Accounts rs b overflowed = Unit

pub receive-Accounts : (rs : List Read) (b : Bytes) → Accounts rs b (receive rs b)
unfolding receive
receive-Accounts [] b = sym (append-nil b)
receive-Accounts (Read.closed ∷ rs) b = sym (append-nil b)
receive-Accounts (Read.read_error e ∷ rs) b = sym (append-nil b)
receive-Accounts (Read.got tmp ∷ rs) b = elim (Bool-cases (ltb (length tmp) tmp_size)) [
  | inr full ↦ rw (full) tt
  | inl room ↦ elim (Option-cases (Frame.recvmessage (b ++ c_str tmp))) [
    | inl e ↦
        rw (room, e) (regroup (receive rs (b ++ c_str tmp)) (receive-Accounts rs (b ++ c_str tmp)))
    | inr ((m, left), e) ↦
        rw (room, e)
          (
            ap Frame.recvmessage (sym (append_assoc b (c_str tmp) (bytes_of rs)))
                ∙ recvmessage-append (b ++ c_str tmp) (bytes_of rs) m left e,
            omega arith,
          )
  ]
]
  where
    regroup : (x : Received) → Accounts rs (b ++ c_str tmp) x → Accounts (Read.got tmp ∷ rs) b x
    regroup (message m left rest) (e, l) =
        (ap Frame.recvmessage (sym (append_assoc b (c_str tmp) (bytes_of rs))) ∙ e, omega arith)
    regroup (no_message how left) e = e ∙ append_assoc b (c_str tmp) (bytes_of rs)
    regroup overflowed e = tt

pub ended-parts :
    {how how' : Stop} {s l s' l' : Bytes} → ended how s l ≡ ended how' s' l' → (s ≡ s') × (l ≡ l')
ended-parts h = (cc h, cc h)

after_sending-ended :
    (resp : Bytes) (x : Session) (how : Stop) (sent left : Bytes)
    → after_sending resp x ≡ ended how sent left
    → (s : Bytes) × (x ≡ ended how s left) × (resp ++ s ≡ sent)
after_sending-ended resp (ended how' s b) how sent left h =
    let same : how' ≡ how = cc h in
    let (e, f) = ended-parts h in (s, ap (λ x. ended x s b) same ∙ ap (ended how s) f, e)
after_sending-ended resp (write_failed s b) how sent left h = cc
after_sending-ended resp broke how sent left h = cc
after_sending-ended resp exhausted how sent left h = cc

module _ (c : Codec) where
  -- What a round does with a message.
  abbrev pub on_message : ℕ → List Bool → Bytes → Bytes → List Read → Session
  on_message f ws m b rest = elim (answer c m) [
    | none ↦ broke
    | some resp ↦ elim (can_write ws) [
      | true ↦ after_sending resp (serve_client c f rest (later_writes ws) b)
      | false ↦ write_failed [] b
    ]
  ]

  abbrev pub on_received : ℕ → List Bool → Received → Session
  on_received f ws (no_message how b) = ended how [] b
  on_received f ws overflowed = broke
  on_received f ws (message m b rest) = on_message f ws m b rest

  pub round :
      (f : ℕ) (rs : List Read) (ws : List Bool) (b : Bytes) (x : Received)
      → receive rs b ≡ x
      → serve_client c (suc f) rs ws b ≡ on_received f ws x
  unfolding serve_client
  round f rs ws b (no_message how l) e = rw (e, serve_client)
  round f rs ws b overflowed e = rw (e, serve_client)
  round f rs ws b (message m l rest) e = rw (e, serve_client)

  -- A message that was answered and sent.
  pub on_message-ended :
      (f : ℕ) (ws : List Bool) (m b : Bytes) (rest : List Read) (how : Stop) (sent left : Bytes)
      → on_message f ws m b rest ≡ ended how sent left
      → (resp s : Bytes) × (answer c m ≡ some resp)
        × (serve_client c f rest (later_writes ws) b ≡ ended how s left)
        × (resp ++ s ≡ sent)
  on_message-ended f ws m b rest how sent left h = elim (Option-cases (answer c m)) [
    | inl e ↦ cc (rw (e, on_message) at h)
    | inr (resp, e) ↦ elim (Bool-cases (can_write ws)) [
      | inr stop ↦ cc (rw (e, stop, on_message) at h)
      | inl go ↦
          let (s, x, y) =
            after_sending-ended resp (serve_client c f rest (later_writes ws) b) how sent left
              (rw (e, go, on_message) at h) in
          (resp, s, e, x, y)
    ]
  ]

  -- With fuel `f`, a session that ends well has sent what `cal_IO` answers on the way to what is left.
  abbrev Serves : ℕ → Type 0
  Serves f =
      (rs : List Read) (ws : List Bool) (b : Bytes) (how : Stop) (sent left : Bytes)
      → serve_client c f rs ws b ≡ ended how sent left
      → (out : Bytes) → cal_io c (b ++ bytes_of rs) out ≡ cal_io c left (out ++ sent)

  received-Serves :
      (f : ℕ)
      → Serves f
      → (rs : List Read) (ws : List Bool) (b : Bytes) (how : Stop) (sent left out : Bytes)
        (x : Received)
      → receive rs b ≡ x
      → Accounts rs b x
      → serve_client c (suc f) rs ws b ≡ ended how sent left
      → cal_io c (b ++ bytes_of rs) out ≡ cal_io c left (out ++ sent)
  received-Serves f ih rs ws b how sent left out (no_message how' l) e acc h =
      let (p, q) = ended-parts (sym (round f rs ws b (no_message how' l) e) ∙ h) in
      ap (λ s. cal_io c s out) (sym acc ∙ q)
      ∙ ap (cal_io c left) (sym (append-nil out) ∙ ap (λ s. out ++ s) p)
  received-Serves f ih rs ws b how sent left out overflowed e acc h =
      cc (sym (round f rs ws b overflowed e) ∙ h)
  received-Serves f ih rs ws b how sent left out (message m l rest) e (cut, less) h =
      let (resp, s, a, x, y) =
        on_message-ended f ws m l rest how sent left
          (sym (round f rs ws b (message m l rest) e) ∙ h) in
      cal_io_round c (b ++ bytes_of rs) m (l ++ bytes_of rest) out resp cut a
      ∙ ih rest (later_writes ws) l how s left x (out ++ resp)
      ∙ ap (cal_io c left) (append_assoc out resp s ∙ ap (λ t. out ++ t) y)

  serve_client-Serves : (f : ℕ) → Serves f
  unfolding serve_client
  serve_client-Serves zero rs ws b how sent left h out = cc h
  serve_client-Serves (suc f) rs ws b how sent left h out =
      received-Serves f (serve_client-Serves f) rs ws b how sent left out (receive rs b) refl
        (receive-Accounts rs b) h

  -- If a session ends with the client quitting or waits for more, then on all that arrived `cal_IO`
  -- would first answer exactly what the session has sent, and would go on with what the session has
  -- left in the buffer.
  pub calserver_io-cal_io :
      (rs : List Read) (ws : List Bool) (b : Bytes) (how : Stop) (sent left out : Bytes)
      → calserver_io c rs ws b ≡ ended how sent left
      → cal_io c (b ++ bytes_of rs) out ≡ cal_io c left (out ++ sent)
  unfolding calserver_io
  calserver_io-cal_io rs ws b how sent left out h =
      serve_client-Serves (suc (length rs)) rs ws b how sent left h out
