-- ===== src/Reactor/Delivery.antt =====
-- What `writer` of IO/reactor sends, keeps and forgets.
use linux_learning_machine_c.Base.{
  ℕ, ◌≡◌, refl, ◌∙◌, Bool, true, false, Option, none, some, List, [], ◌∷◌, ◌++◌, Bytes, arith,
  length-drop, ◌<◌, ◌≢◌, suc, append_assoc, take-append-drop, min, length, drop, take,
}
use linux_learning_machine_c.Reactor.Connection.{Connection, settime}
use linux_learning_machine_c.Reactor.Rules.{writer_rule}
use linux_learning_machine_c.Reactor.Manager.{
  getconnptr, is_alive, getconnptr-deleconn, getconnptr-modify,
}
use linux_learning_machine_c.Reactor.Kernel.{eagain, Write, took, write_error, reads_and_writes}
use linux_learning_machine_c.Reactor.World.{World, ok}
use linux_learning_machine_c.Reactor.Trace.{armed}
use linux_learning_machine_c.Reactor.Server.{
  closefd, sent_part, writer_end, writer_loop, writer, is_nil,
}
use linux_learning_machine_c.Reactor.Trace.{sent_to}

abbrev pub outbuf_of : Option Connection → Bytes
outbuf_of none = []
outbuf_of (some c) = c.outbuf

-- What `fd` was sent, and what is still to be sent.
abbrev pub outgoing : ℕ → World → Bytes
outgoing fd w = sent_to fd w.trace ++ outbuf_of (getconnptr fd w.conns)

-- The bytes of `fd` all the time the same: while the connection stands none is lost, repeated or
-- reordered; if it was closed, what was sent is a front part of them.
abbrev pub Delivers : ℕ → World → World → Type 0
Delivers fd w w' =
    ((is_alive fd w'.conns ≡ true) → outgoing fd w' ≡ outgoing fd w)
    × ((rest : Bytes) × (sent_to fd w'.trace ++ rest ≡ outgoing fd w))

sent_part-outgoing :
    (fd size : ℕ) (w : World) (c : Connection)
    → getconnptr fd w.conns ≡ some c
    → outgoing fd (sent_part fd size c.outbuf w) ≡ outgoing fd w
unfolding sent_to
sent_part-outgoing fd size w c e = ground (
  arith,
  getconnptr-modify fd fd (λ (x : Connection). record x { outbuf = drop size c.outbuf }) w.conns,
  append_assoc (sent_to fd w.trace) (take size c.outbuf) (drop size c.outbuf),
  take-append-drop size c.outbuf,
)

writer_end-outgoing :
    (fd : ℕ) (out : Bytes) (w : World) → outgoing fd (writer_end fd out w) ≡ outgoing fd w
unfolding writer_end sent_to
writer_end-outgoing fd out w = ground (arith, getconnptr-modify fd fd (settime 0 w.clock) w.conns)

closefd-Delivers :
    (fd : ℕ) (w w' : World) → outgoing fd w' ≡ outgoing fd w → Delivers fd w (closefd fd w')
unfolding closefd sent_to
closefd-Delivers fd w w' e = (
  λ a. absurd (ground (arith, getconnptr-deleconn fd fd w'.conns)),
  (outbuf_of (getconnptr fd w'.conns), e),
)

Delivers-of_eq : (fd : ℕ) (w w' : World) → outgoing fd w' ≡ outgoing fd w → Delivers fd w w'
Delivers-of_eq fd w w' e = (λ a. e, (outbuf_of (getconnptr fd w'.conns), e))

-- If `writer` meets no fault, the bytes that a client was sent, with those still to be sent, are what
-- they were before: nothing is lost, repeated or reordered. If it closed the connection, what the
-- client was sent is a front part of them.
pub writer-Delivers : (fd : ℕ) (w w' : World) → writer fd w ≡ ok w' → Delivers fd w w'
unfolding writer
writer-Delivers fd w w' =
    writer_rule fd (Delivers fd) (λ w c ws e. Delivers-of_eq fd w (record w { writes = ws }) refl)
      (λ w c ws n e z. closefd-Delivers fd w (record w { writes = ws }) refl)
      (λ w c ws size e z.
        let left = drop size c.outbuf in
        let sent = record (sent_part fd size c.outbuf w) { writes = ws } in
        Delivers-of_eq fd w (writer_end fd left sent)
          (writer_end-outgoing fd left sent ∙ sent_part-outgoing fd size w c e))
      (λ w c w' size e ih.
        let kept = sent_part-outgoing fd size w c e in
        (λ a. ih.0 a ∙ kept, (ih.1.0, ih.1.1 ∙ kept)))
      w.writes w w'

-- The interest in `EPOLLOUT`, by which epoll reports that more can be written.
abbrev pub waits_to_write : ℕ → World → Bool
waits_to_write fd w = elim (armed fd w.trace) [ some reads_and_writes ↦ true | _ ↦ false ]

abbrev NoneWaits : World → World → Type 0
NoneWaits w w' = (j : ℕ) → waits_to_write j w ≡ false → waits_to_write j w' ≡ false

closefd-NoneWaits : (fd : ℕ) (w : World) → NoneWaits w (closefd fd w)
unfolding closefd armed
closefd-NoneWaits fd w j h = ground arith

writer_end-NoneWaits :
    (fd : ℕ) (out : Bytes) (w : World) → is_nil out ≡ true → NoneWaits w (writer_end fd out w)
unfolding writer_end armed
writer_end-NoneWaits fd out w z j h = ground arith

sent_part-NoneWaits :
    (fd size : ℕ) (out : Bytes) (w : World) → NoneWaits w (sent_part fd size out w)
unfolding armed
sent_part-NoneWaits fd size out w j h = h

-- `writer` never asks epoll to report that a descriptor can be written: the branch for a buffer that
-- is not empty is dead, since the loop ends by `break` only where the buffer is empty.
pub writer-NoneWaits :
    (fd : ℕ) (w w' : World)
    → writer fd w ≡ ok w'
    → (j : ℕ) → waits_to_write j w ≡ false
    → waits_to_write j w' ≡ false
unfolding writer
writer-NoneWaits fd w w' =
    writer_rule fd NoneWaits (λ w c ws e j h. h)
      (λ w c ws n e z j h. closefd-NoneWaits fd (record w { writes = ws }) j h)
      (λ w c ws size e z j h.
        writer_end-NoneWaits fd _ (record (sent_part fd size c.outbuf w) { writes = ws }) z j
          (sent_part-NoneWaits fd size c.outbuf w j h))
      (λ w c w' size e keep j h. keep j (sent_part-NoneWaits fd size c.outbuf w j h)) w.writes w w'

writer_loop_stalls :
    (fd n : ℕ) (ws : List Write) (w : World) (c : Connection)
    → getconnptr fd w.conns ≡ some c
    → suc n < length c.outbuf
    → writer_loop (took (suc n) ∷ write_error eagain ∷ ws) fd w
      ≡ ok (record (sent_part fd (suc n) c.outbuf w) { writes = ws })
unfolding writer_loop
writer_loop_stalls fd n ws w c e part =
    let size : min (suc n) (length c.outbuf) ≡ suc n = omega arith in
    ground (
      arith,
      e,
      size,
      length-drop (suc n) c.outbuf,
      getconnptr-modify fd fd (λ (x : Connection). record x { outbuf = drop (suc n) c.outbuf })
          w.conns,
    )

-- So a `write` that takes a part of the buffer and then finds the socket full leaves the rest behind:
-- the call ends well, the rest stays in the output buffer, and the interest is what it was.
pub writer_stalls :
    (fd n : ℕ) (ws : List Write) (w : World) (c : Connection)
    → getconnptr fd w.conns ≡ some c
    → w.writes ≡ took (suc n) ∷ write_error eagain ∷ ws
    → suc n < length c.outbuf
    → (w' : World) × (writer fd w ≡ ok w')
      × (getconnptr fd w'.conns ≡ some (record c { outbuf = drop (suc n) c.outbuf }))
      × (drop (suc n) c.outbuf ≢ [])
      × (armed fd w'.trace ≡ armed fd w.trace)
unfolding writer writer_loop armed
writer_stalls fd n ws w c e script part = (
  record (sent_part fd (suc n) c.outbuf w) { writes = ws },
  rw script (writer_loop_stalls fd n ws w c e part),
  ground (
    arith,
    getconnptr-modify fd fd (λ (x : Connection). record x { outbuf = drop (suc n) c.outbuf })
        w.conns,
  ),
  ground (arith, length-drop (suc n) c.outbuf),
  refl,
)
