-- ===== src/Reactor/Server.antt =====
-- IO/reactor/reactor_server.hpp: the handlers of `server_reactor` and its event loop.
-- A system call is an entry of the trace; what the kernel answers is an argument of the handler.
use linux_learning_machine_c.Base.{
  ℕ, Bool, true, false, ◌==◌, ltb, if◌then◌else◌, Option, none, some, List, [], ◌∷◌, ◌++◌, Bytes,
  c_str, length, take, drop, min,
}
use linux_learning_machine_c.Reactor.Connection.{
  ReadCallback, WriteCallback, new_connection, reg, settime,
}
use linux_learning_machine_c.Reactor.Manager.{newconn, deleconn}
use linux_learning_machine_c.Reactor.Kernel.{
  Errno, eagain, eintr, other, Read, got, closed, read_error, Write, took, write_error, Accept,
  accepted, accept_error, reads_only, reads_and_writes, set_nonblock, epoll_add, epoll_mod,
  epoll_del, close, wrote, Call,
}
use linux_learning_machine_c.Reactor.World.{
  World, missing_return, buffer_overflow, bad_call, callback_threw, Outcome, ok, fault, ◌>>=◌,
  require, or_fault, log_call, on_conn, deref,
}

-- `BUFFERSIZE`
abbrev pub buffer_size : ℕ
buffer_size = 1024

-- `closefd`
unfoldable pub closefd : ℕ → World → World
closefd fd w = record w { conns = deleconn fd w.conns; trace = close fd ∷ epoll_del fd ∷ w.trace }

-- `excepter`
abbrev pub excepter : ℕ → World → World
excepter fd w = closefd fd w

-- `err_IO`: `true` asks for another try. Behind its last branch, which closes the connection by
-- `excepter`, the function has no `return`.
unfoldable pub err_io : Errno → ℕ → World → Outcome Bool
err_io eagain fd w = ok false
err_io eintr fd w = ok true
err_io other fd w = let after = excepter fd w in fault missing_return

abbrev pub is_nil : Bytes → Bool
is_nil [] = true
is_nil (c ∷ s) = false

-- The end of `writer`, behind its loop.
unfoldable pub writer_end : ℕ → Bytes → World → World
writer_end fd outbuf w =
    on_conn fd (settime 0 w.clock)
      (log_call (epoll_mod fd (if is_nil outbuf then reads_only else reads_and_writes)) w)

-- `write` took `size` bytes of the output buffer.
abbrev pub sent_part : ℕ → ℕ → Bytes → World → World
sent_part fd size outbuf w =
    on_conn fd (λ c. record c { outbuf = drop size outbuf })
      (log_call (wrote fd (take size outbuf)) w)

-- The loop of `writer`, over what `write` answers.
unfoldable pub writer_loop : List Write → ℕ → World → Outcome World
unfolding writer_end closefd err_io
writer_loop [] fd w = do c ← deref fd w; again ← err_io eagain fd w; ok (record w { writes = [] })
writer_loop (write_error e ∷ ws) fd w =
    let retry = writer_loop ws fd w in
    deref fd w >>= λ c.
    err_io e fd w >>= λ again. if again then retry else ok (record w { writes = ws })
writer_loop (took n ∷ ws) fd w = deref fd w >>= λ c.
    let size = min n (length c.outbuf) in
    let left = drop size c.outbuf in
    let more = writer_loop ws fd (sent_part fd size c.outbuf w) in
    if size == 0
    then ok (closefd fd (record w { writes = ws }))
    else if is_nil left
    then ok (writer_end fd left (record (sent_part fd size c.outbuf w) { writes = ws }))
    else more

-- `writer`
unfoldable pub writer : ℕ → World → Outcome World
writer fd w = writer_loop w.writes fd w

-- `pc->_writer(pc)`; an empty `std::function` throws.
unfoldable pub call_writer : Option WriteCallback → ℕ → World → Outcome World
call_writer none fd w = fault bad_call
call_writer (some WriteCallback.writer) fd w = writer fd w

-- `EPOLL_CTL_ADD`, if it succeeds; a failure is logged, and `acceptor` goes on all the same.
abbrev pub added_to : Bool → ℕ → List Call → List Call
added_to true fd t = epoll_add fd reads_only ∷ t
added_to false fd t = t

-- One new client: `SetNonblock`, `epoll_ctl` and the entry of `_conns`.
unfoldable pub accept_one : ℕ → Bool → World → World
accept_one fd added w = record w {
  conns =
      newconn fd
        (settime 0 w.clock
          (reg (new_connection fd) (some ReadCallback.recver) (some WriteCallback.writer) none))
        w.conns;
  trace = added_to added fd (set_nonblock fd ∷ w.trace);
}

-- `acceptor`, over what `accept` answers.
unfoldable pub acceptor : List Accept → World → World
acceptor [] w = w
acceptor (accepted fd added ∷ as') w = acceptor as' (accept_one fd added w)
acceptor (accept_error eintr ∷ as') w = acceptor as' w
acceptor (accept_error e ∷ as') w = w

-- `_callback`: the new input and output buffers, or an exception.
module _ (callback : Bytes → Bytes → Option (Bytes × Bytes)) where
  abbrev pub keep_buffers : ℕ → Bytes × Bytes → World → World
  keep_buffers fd (i, o) w = on_conn fd (λ c. record c { inbuf = i; outbuf = o }) w

  -- What `recver` does with a chunk: `buffer[n] = 0` needs `n < BUFFERSIZE`, and `_inbuf += buffer`
  -- reads a C string.
  unfoldable pub recver_chunk : Bytes → ℕ → World → Outcome World
  recver_chunk chunk fd w = do
    c ← deref fd w
    small ← require (ltb (length chunk) buffer_size) buffer_overflow
    buffers ← or_fault (callback (c.inbuf ++ c_str chunk) c.outbuf) callback_threw
    call_writer c.on_write fd (keep_buffers fd buffers w)

  -- The loop of `recver`, over what `read` answers.
  unfoldable pub recver_loop : List Read → ℕ → World → Outcome World
  unfolding recver_chunk closefd err_io
  recver_loop [] fd w = do c ← deref fd w; again ← err_io eagain fd w; ok w
  recver_loop (read_error e ∷ rs) fd w =
      let retry = recver_loop rs fd w in
      deref fd w >>= λ c. err_io e fd w >>= λ again. if again then retry else ok w
  recver_loop (closed ∷ rs) fd w = deref fd w >>= λ c. ok (closefd fd w)
  recver_loop (got chunk ∷ rs) fd w = recver_chunk chunk fd w >>= λ w'. recver_loop rs fd w'

  -- `recver`
  unfoldable pub recver : List Read → ℕ → World → Outcome World
  recver rs fd w = deref fd w >>= λ c. recver_loop rs fd (on_conn fd (settime 0 w.clock) w)
