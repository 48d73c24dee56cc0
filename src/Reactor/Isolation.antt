-- ===== src/Reactor/Isolation.antt =====
-- The handlers of IO/reactor touch no connection but their own; the listening socket stays.
use linux_learning_machine_c.Base.{ℕ, ◌≡◌, refl, ◌∙◌, false, ◌==◌, Option, List, Bytes, arith, drop}
use linux_learning_machine_c.Reactor.Connection.{Connection, settime}
use linux_learning_machine_c.Reactor.Rules.{writer_rule, recver_rule, recver_chunk-ok}
use linux_learning_machine_c.Reactor.Manager.{getconnptr, getconnptr-deleconn, getconnptr-modify}
use linux_learning_machine_c.Reactor.Kernel.{Read}
use linux_learning_machine_c.Reactor.World.{World, ok, on_conn, deref, >>=-eq-ok}
use linux_learning_machine_c.Reactor.Server.{
  closefd, sent_part, writer_end, writer, recver_chunk, recver, keep_buffers,
}

-- The entry of `j` in the map is the same before and after.
abbrev pub Same : ℕ → World → World → Type 0
Same j w w' = getconnptr j w'.conns ≡ getconnptr j w.conns

module _ (fd j : ℕ) (ne : (fd == j) ≡ false) where
  closefd-Same : (w : World) → Same j w (closefd fd w)
  unfolding closefd
  closefd-Same w = ground (arith, getconnptr-deleconn j fd w.conns)

  on_conn-Same : (f : Connection → Connection) (w : World) → Same j w (on_conn fd f w)
  on_conn-Same f w = ground (arith, getconnptr-modify j fd f w.conns)

  writer_end-Same : (out : Bytes) (w : World) → Same j w (writer_end fd out w)
  unfolding writer_end
  writer_end-Same out w = on_conn-Same (settime 0 w.clock) w

  pub writer-Same : (w w' : World) → writer fd w ≡ ok w' → Same j w w'
  unfolding writer
  writer-Same w w' =
      writer_rule fd (Same j) (λ w c ws e. refl)
        (λ w c ws n e z. closefd-Same (record w { writes = ws }))
        (λ w c ws size e z.
          let cut = λ (x : Connection). record x { outbuf = drop size c.outbuf } in
          writer_end-Same _ (record (sent_part fd size c.outbuf w) { writes = ws })
          ∙ on_conn-Same cut w)
        (λ w c w' size e ih.
          ih ∙ on_conn-Same (λ (x : Connection). record x { outbuf = drop size c.outbuf }) w)
        w.writes w w'

  module _ (callback : Bytes → Bytes → Option (Bytes × Bytes)) where
    recver_chunk-Same :
        (b : Bytes) (w w' : World) → recver_chunk callback b fd w ≡ ok w' → Same j w w'
    recver_chunk-Same b w w' h =
        let (c, bufs, _, _, r) = recver_chunk-ok callback b fd w w' h in
        writer-Same (keep_buffers callback fd bufs w) w' r ∙ on_conn-Same _ w

    -- Whatever `recver` does to its own connection, every other entry of the map stays as it was.
    pub recver-Same :
        (rs : List Read) (w w' : World) → recver callback rs fd w ≡ ok w' → Same j w w'
    unfolding recver
    recver-Same rs w w' h =
        let (c, _, k) = >>=-eq-ok (deref fd w) _ h in
        recver_rule callback fd (Same j) (λ w. refl) (λ w c e. closefd-Same w)
          (λ w w1 w' b e ih. ih ∙ recver_chunk-Same b w w1 e) rs _ w' k
        ∙ on_conn-Same (settime 0 w.clock) w
