-- ===== src/Reactor/Rules.antt =====
-- Induction over the loops of the handlers of IO/reactor, for runs that do not fail: one case for each
-- way in which a round ends.
use mathlib.Core.Path.{subst}
use linux_learning_machine_c.Base.{
  if-eq, ℕ, ◌≡◌, true, ◌==◌, ==_iff, Option, none, some, List, [], ◌∷◌, ◌++◌, Bytes, inl, inr, min,
  length, drop, ltb, lt→ltb, ◌<◌, c_str,
}
use linux_learning_machine_c.Reactor.Connection.{Connection, WriteCallback}
use linux_learning_machine_c.Reactor.Manager.{getconnptr}
use linux_learning_machine_c.Reactor.Kernel.{
  Read, got, closed, read_error, Write, took, write_error,
}
use linux_learning_machine_c.Reactor.World.{
  World, ok, ◌>>=◌, deref, ok-injective, >>=-eq-ok, deref-ok, or_fault, or_fault-ok, require,
  buffer_overflow, callback_threw,
}
use linux_learning_machine_c.Reactor.Server.{
  closefd, err_io, sent_part, writer_end, writer_loop, writer, call_writer, recver_chunk,
  recver_loop, is_nil, buffer_size, keep_buffers,
}

call_writer-ok :
    (o : Option WriteCallback) (fd : ℕ) (w w' : World)
    → call_writer o fd w ≡ ok w'
    → writer fd w ≡ ok w'
unfolding call_writer
call_writer-ok none fd w w' h = cc
call_writer-ok (some WriteCallback.writer) fd w w' h = h

-- A round of `writer` ends the loop, or goes on with what is left.
pub writer_rule {ℓ} :
    (fd : ℕ) (P : World → World → Type ℓ)
    → ((w : World) (c : Connection) (ws : List Write)
        → getconnptr fd w.conns ≡ some c
        → P w (record w { writes = ws }))
    → ((w : World) (c : Connection) (ws : List Write) (n : ℕ)
        → getconnptr fd w.conns ≡ some c
        → min n (length c.outbuf) ≡ 0
        → P w (closefd fd (record w { writes = ws })))
    → ((w : World) (c : Connection) (ws : List Write) (size : ℕ)
        → getconnptr fd w.conns ≡ some c
        → is_nil (drop size c.outbuf) ≡ true
        → P w (
            writer_end fd
              (drop size c.outbuf)
              (record (sent_part fd size c.outbuf w) { writes = ws })))
    → ((w : World) (c : Connection) (w' : World) (size : ℕ)
        → getconnptr fd w.conns ≡ some c
        → P (sent_part fd size c.outbuf w) w'
        → P w w')
    → (ws : List Write) (w w' : World) → writer_loop ws fd w ≡ ok w'
    → P w w'
unfolding writer_loop
writer_rule fd P stop hang finish more [] w w' h =
    let (c, d, k) = >>=-eq-ok (deref fd w) _ h in
    subst (P w) (ok-injective k) (stop w c [] (deref-ok fd w d))
writer_rule fd P stop hang finish more (write_error e ∷ ws) w w' h =
    let (c, d, k) = >>=-eq-ok (deref fd w) _ h in
    let (again, _, k') = >>=-eq-ok (err_io e fd w) _ k in
    elim (if-eq again k') [
      | inl (_, r) ↦ writer_rule fd P stop hang finish more ws w w' r
      | inr (_, r) ↦ subst (P w) (ok-injective r) (stop w c ws (deref-ok fd w d))
    ]
writer_rule fd P stop hang finish more (took n ∷ ws) w w' h =
    let (c, d, k) = >>=-eq-ok (deref fd w) _ h in
    let there = deref-ok fd w d in
    elim (if-eq (min n (length c.outbuf) == 0) k) [
      | inl (z, r) ↦ subst (P w) (ok-injective r) (hang w c ws n there ((==_iff _ 0).0 z))
      | inr (_, k') ↦ elim (if-eq (is_nil (drop (min n (length c.outbuf)) c.outbuf)) k') [
        | inl (z, r) ↦ subst (P w) (ok-injective r) (finish w c ws _ there z)
        | inr (_, r) ↦ more w c w' _ there (writer_rule fd P stop hang finish more ws _ w' r)
      ]
    ]

module _ (callback : Bytes → Bytes → Option (Bytes × Bytes)) where
  -- A round of `recver` ends the loop, or hands a chunk on and goes on with the next answer.
  pub recver_rule {ℓ} :
      (fd : ℕ) (P : World → World → Type ℓ)
      → ((w : World) → P w w)
      → ((w : World) (c : Connection) → getconnptr fd w.conns ≡ some c → P w (closefd fd w))
      → ((w : World) (w1 : World) (w' : World) (chunk : Bytes)
          → recver_chunk callback chunk fd w ≡ ok w1
          → P w1 w'
          → P w w')
      → (rs : List Read) (w w' : World) → recver_loop callback rs fd w ≡ ok w'
      → P w w'
  unfolding recver_loop
  recver_rule fd P stop hang chunk [] w w' h =
      let (c, d, k) = >>=-eq-ok (deref fd w) _ h in subst (P w) (ok-injective k) (stop w)
  recver_rule fd P stop hang chunk (read_error e ∷ rs) w w' h =
      let (c, d, k) = >>=-eq-ok (deref fd w) _ h in
      let (again, _, k') = >>=-eq-ok (err_io e fd w) _ k in
      elim (if-eq again k') [
        | inl (_, r) ↦ recver_rule fd P stop hang chunk rs w w' r
        | inr (_, r) ↦ subst (P w) (ok-injective r) (stop w)
      ]
  recver_rule fd P stop hang chunk (closed ∷ rs) w w' h =
      let (c, d, k) = >>=-eq-ok (deref fd w) _ h in
      subst (P w) (ok-injective k) (hang w c (deref-ok fd w d))
  recver_rule fd P stop hang chunk (got b ∷ rs) w w' h =
      let (w1, a, k) = >>=-eq-ok (recver_chunk callback b fd w) _ h in
      chunk w w1 w' b a (recver_rule fd P stop hang chunk rs w1 w' k)

  -- A chunk that was handed on went through the callback and the writer.
  pub recver_chunk-ok :
      (b : Bytes) (fd : ℕ) (w w' : World)
      → recver_chunk callback b fd w ≡ ok w'
      → (c : Connection) × (bufs : Bytes × Bytes) × (getconnptr fd w.conns ≡ some c)
        × (callback (c.inbuf ++ c_str b) c.outbuf ≡ some bufs)
        × (writer fd (keep_buffers callback fd bufs w) ≡ ok w')
  unfolding recver_chunk
  recver_chunk-ok b fd w w' h =
      let (c, d, k) = >>=-eq-ok (deref fd w) _ h in
      let (_, _, k') = >>=-eq-ok (require (ltb (length b) buffer_size) buffer_overflow) _ k in
      let (bufs, e, r) =
        >>=-eq-ok (or_fault (callback (c.inbuf ++ c_str b) c.outbuf) callback_threw) _ k' in
      (
        c,
        bufs,
        deref-ok fd w d,
        or_fault-ok _ callback_threw e,
        call_writer-ok c.on_write fd _ w' r,
      )

  -- A small chunk goes through the callback to the writer.
  pub recver_chunk_runs :
      (b : Bytes) (bufs : Bytes × Bytes) (fd : ℕ) (w : World) (c : Connection)
      → getconnptr fd w.conns ≡ some c
      → c.on_write ≡ some WriteCallback.writer
      → length b < buffer_size
      → callback (c.inbuf ++ c_str b) c.outbuf ≡ some bufs
      → recver_chunk callback b fd w ≡ writer fd (keep_buffers callback fd bufs w)
  unfolding recver_chunk call_writer
  recver_chunk_runs b bufs fd w c e reg small quiet =
      rw (e, deref, ◌>>=◌, lt→ltb _ _ small, require, quiet, or_fault, reg)
