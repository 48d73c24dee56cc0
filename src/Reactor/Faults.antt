-- ===== src/Reactor/Faults.antt =====
-- Inputs at which the handlers of IO/reactor do what C++ leaves undefined.
use linux_learning_machine_c.Base.{
  ℕ, ◌≡◌, refl, ap, Option, none, some, List, [], ◌∷◌, ◌++◌, Bytes, c_str, arith, ◌<◌, length,
}
use linux_learning_machine_c.Reactor.Connection.{Connection, WriteCallback}
use linux_learning_machine_c.Reactor.Rules.{recver_chunk_runs}
use linux_learning_machine_c.Reactor.Manager.{getconnptr, getconnptr-deleconn, getconnptr-modify}
use linux_learning_machine_c.Reactor.Kernel.{other, Read, got, closed, read_error, Write, took}
use linux_learning_machine_c.Reactor.World.{
  World, ok, fault, use_after_free, missing_return, buffer_overflow, ◌>>=◌,
}
use linux_learning_machine_c.Reactor.Server.{
  closefd, writer_loop, writer, recver_chunk, recver_loop, keep_buffers, buffer_size,
}
use linux_learning_machine_c.Protocol.Frame.{recvmessage}
use linux_learning_machine_c.Protocol.Message.Codec.{Codec}
use linux_learning_machine_c.Service.Calculator.{cal_callback}
use linux_learning_machine_c.Service.Calculator.Refine.{cal_io_idle}

-- An empty output buffer makes `write` return 0, which `writer` takes for a client that has gone.
pub writer_empty_closes :
    (fd n : ℕ) (ws : List Write) (w : World) (c : Connection)
    → getconnptr fd w.conns ≡ some c
    → c.outbuf ≡ []
    → w.writes ≡ took n ∷ ws
    → writer fd w ≡ ok (closefd fd (record w { writes = ws }))
unfolding writer writer_loop
writer_empty_closes fd n ws w c e empty script =
    rw script (ground (arith, e, empty, ap length empty))

module _ (callback : Bytes → Bytes → Option (Bytes × Bytes)) where
  recver_loop-dangling :
      (rs : List Read) (fd : ℕ) (w : World)
      → getconnptr fd w.conns ≡ none
      → recver_loop callback rs fd w ≡ fault use_after_free
  unfolding recver_loop
  recver_loop-dangling [] fd w e = ground (arith, e)
  recver_loop-dangling (got b ∷ rs) fd w e = unfold recver_chunk in ground (arith, e)
  recver_loop-dangling (closed ∷ rs) fd w e = ground (arith, e)
  recver_loop-dangling (read_error k ∷ rs) fd w e = ground (arith, e)

  -- A chunk after which the callback has nothing to send: the writer closes the connection, and
  -- `recver` reads through the pointer that dangles.
  recver_loop_silent :
      (b i : Bytes) (rs : List Read) (fd n : ℕ) (ws : List Write) (w : World) (c : Connection)
      → getconnptr fd w.conns ≡ some c
      → c.on_write ≡ some WriteCallback.writer
      → length b < buffer_size
      → callback (c.inbuf ++ c_str b) c.outbuf ≡ some (i, [])
      → w.writes ≡ took n ∷ ws
      → recver_loop callback (got b ∷ rs) fd w ≡ fault use_after_free
  unfolding recver_loop closefd
  recver_loop_silent b i rs fd n ws w c e bound small quiet script =
      let w1 = keep_buffers callback fd (i, []) w in
      let w2 = closefd fd (record w1 { writes = ws }) in
      let closes : writer fd w1 ≡ ok w2 =
        writer_empty_closes fd n ws w1 (record c { inbuf = i; outbuf = [] })
          (ground (
            arith,
            getconnptr-modify fd fd (λ (x : Connection). record x { inbuf = i; outbuf = [] })
                w.conns,
          ))
          refl script in
      rw (recver_chunk_runs callback b (i, []) fd w c e bound small quiet, closes, ◌>>=◌)
        (recver_loop-dangling rs fd w2 (ground (arith, getconnptr-deleconn fd fd w1.conns)))

  -- A hard error of `read`, on a connection that stands.
  pub recver_loop_error :
      (rs : List Read) (fd : ℕ) (w : World) (c : Connection)
      → getconnptr fd w.conns ≡ some c
      → recver_loop callback (read_error other ∷ rs) fd w ≡ fault missing_return
  unfolding recver_loop
  recver_loop_error rs fd w c e = ground (arith, e)

  -- A read that fills the buffer.
  pub recver_loop_full :
      (b : Bytes) (rs : List Read) (fd : ℕ) (w : World) (c : Connection)
      → getconnptr fd w.conns ≡ some c
      → length b ≡ buffer_size
      → recver_loop callback (got b ∷ rs) fd w ≡ fault buffer_overflow
  unfolding recver_loop recver_chunk
  recver_loop_full b rs fd w c e full = ground (arith, e)

-- With `cal_IO` as the callback, a read that completes no message on a connection with nothing to
-- send ends in a use after free, whatever `write` would take and whatever is read afterwards.
pub incomplete_message_faults :
    (codec : Codec) (b : Bytes) (rs : List Read) (fd n : ℕ) (ws : List Write) (w : World)
    (c : Connection)
    → getconnptr fd w.conns ≡ some c
    → c.on_write ≡ some WriteCallback.writer
    → c.outbuf ≡ []
    → length b < buffer_size
    → recvmessage (c.inbuf ++ c_str b) ≡ none
    → w.writes ≡ took n ∷ ws
    → recver_loop (cal_callback codec) (got b ∷ rs) fd w ≡ fault use_after_free
unfolding cal_callback
incomplete_message_faults codec b rs fd n ws w c e bound empty small part script =
    recver_loop_silent (cal_callback codec) b (c.inbuf ++ c_str b) rs fd n ws w c e bound small
      (rw empty (ground (arith, cal_io_idle codec (c.inbuf ++ c_str b) [] part))) script
