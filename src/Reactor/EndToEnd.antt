-- ===== src/Reactor/EndToEnd.antt =====
-- The server of IO/reactor with `cal_IO` as its callback: what a client is sent for what it sends.
use linux_learning_machine_c.Base.{
  ℕ, ◌≡◌, refl, sym, ◌∙◌, ap, false, ◌==◌, none, some, List, [], ◌∷◌, ◌++◌, Bytes, map, take-length,
  drop-length, append_assoc, ◌≤◌, Lacks, c_str-eq_self, c_str, arith, ◌<◌, append_assoc, append-nil,
  min, length, drop, take,
}
use linux_learning_machine_c.Reactor.Connection.{Connection, settime, WriteCallback}
use linux_learning_machine_c.Reactor.Rules.{recver_chunk_runs}
use linux_learning_machine_c.Reactor.Manager.{getconnptr, modify, getconnptr-modify}
use linux_learning_machine_c.Reactor.Kernel.{got, Write, took, write_error}
use linux_learning_machine_c.Reactor.World.{World, ok, deref, ◌>>=◌}
use linux_learning_machine_c.Reactor.Server.{
  sent_part, writer_end, writer_loop, writer, recver_chunk, recver_loop, keep_buffers, buffer_size,
}
use linux_learning_machine_c.Reactor.Trace.{sent_to}
use linux_learning_machine_c.Protocol.Frame.{recvmessage}
use linux_learning_machine_c.Protocol.Message.Codec.{Codec}
use linux_learning_machine_c.Service.Calculator.{cal_callback, cal_io}
use linux_learning_machine_c.Service.Calculator.Refine.{cal_io_idle}
use linux_learning_machine_c.Service.Calculator.{served}
use linux_learning_machine_c.Service.Calculator.Refine.{cal_io-append, cal_io_front, cal_io-idle}

take_all : (s : Bytes) → take (length s) s ≡ s
take_all s = ap (take (length s)) (sym (append-nil s)) ∙ take-length s []

drop_all : (s : Bytes) → drop (length s) s ≡ []
drop_all s = ap (drop (length s)) (sym (append-nil s)) ∙ drop-length s []

abbrev pub join : List Bytes → Bytes
join [] = []
join (b ∷ bs) = b ++ join bs

-- Each read is shorter than the buffer and holds no zero byte, each finishes at least one message, and
-- the kernel takes each answer whole. `i` is what the input buffer holds before.
abbrev pub Prompt : Codec → Bytes → List Bytes → List Write → Type 0
Prompt codec i [] ws = ws ≡ []
Prompt codec i (b ∷ bs) [] = ⊥
Prompt codec i (b ∷ bs) (write_error e ∷ ws) = ⊥
Prompt codec i (b ∷ bs) (took n ∷ ws) =
    (length b < buffer_size)
    × Lacks 0 b
    × ((i' : Bytes) × (o : Bytes) × (cal_io codec (i ++ b) [] ≡ served i' o)
        × (0 < length o)
        × (length o ≤ n)
        × Prompt codec i' bs ws)

writer_loop_whole :
    (fd n : ℕ) (ws : List Write) (w : World) (c : Connection)
    → getconnptr fd w.conns ≡ some c
    → 0 < length c.outbuf
    → length c.outbuf ≤ n
    → (w' : World) × (writer_loop (took n ∷ ws) fd w ≡ ok w')
      × (getconnptr fd w'.conns ≡ some (record (settime 0 w.clock c) { outbuf = [] }))
      × (w'.writes ≡ ws)
      × (sent_to fd w'.trace ≡ sent_to fd w.trace ++ c.outbuf)
unfolding writer_loop writer_end sent_to
writer_loop_whole fd n ws w c e some_bytes room =
    let size : min n (length c.outbuf) ≡ length c.outbuf = omega arith in
    let sent = record (sent_part fd (length c.outbuf) c.outbuf w) { writes = ws } in
    let taken = take_all c.outbuf in
    let left = drop_all c.outbuf in
    let positive : (length c.outbuf == 0) ≡ false = ground arith in
    let cut = λ (x : Connection). record x { outbuf = drop (length c.outbuf) c.outbuf } in
    (
      writer_end fd [] sent,
      rw (e, deref, ◌>>=◌, size, positive, left),
      ground (
        arith,
        getconnptr-modify fd fd (settime 0 w.clock) (modify fd cut w.conns),
        getconnptr-modify fd fd cut w.conns,
        e,
        left,
      ),
      refl,
      ground (arith, taken),
    )

-- The connection of a client between two reads: nothing to send, no complete message to answer.
pub record IsWaiting (fd : ℕ) (i : Bytes) (ws : List Write) (w : World) (c : Connection)
    : Type 0 where
  pub stands : getconnptr fd w.conns ≡ some c
  pub can_write : c.on_write ≡ some WriteCallback.writer
  pub inbuf_is : c.inbuf ≡ i
  pub outbuf_is : c.outbuf ≡ []
  pub writes_are : w.writes ≡ ws
  pub idle : recvmessage i ≡ none

-- Where all of `bs` was read, the client has been sent `o`, and `i` waits for more.
pub record Answered (codec : Codec) (fd : ℕ) (i : Bytes) (bs : List Bytes) (w : World)
    : Type 0 where
  pub after : World
  pub conn : Connection
  pub rest : Bytes
  pub reply : Bytes
  pub runs : recver_loop (cal_callback codec) (map got bs) fd w ≡ ok after
  pub waiting : IsWaiting fd rest [] after conn
  pub served_as : cal_io codec (i ++ join bs) [] ≡ served rest reply
  pub sent : sent_to fd after.trace ≡ sent_to fd w.trace ++ reply

first_chunk :
    (codec : Codec) (b i i' o : Bytes) (n : ℕ) (ws : List Write) (fd : ℕ) (w : World)
    (c : Connection)
    → IsWaiting fd i (took n ∷ ws) w c
    → length b < buffer_size
    → Lacks 0 b
    → cal_io codec (i ++ b) [] ≡ served i' o
    → 0 < length o
    → length o ≤ n
    → (w' : World) × (recver_chunk (cal_callback codec) b fd w ≡ ok w')
      × IsWaiting fd i' ws w' (record (settime 0 w.clock c) { inbuf = i'; outbuf = [] })
      × (sent_to fd w'.trace ≡ sent_to fd w.trace ++ o)
unfolding cal_callback writer
first_chunk codec b i i' o n ws fd w c v small plain h some_bytes room =
    let w1 = keep_buffers (cal_callback codec) fd (i', o) w in
    let c1 = record c { inbuf = i'; outbuf = o } in
    let there : getconnptr fd w1.conns ≡ some c1 = ground (
      arith,
      v.stands,
      getconnptr-modify fd fd (λ (x : Connection). record x { inbuf = i'; outbuf = o }) w.conns,
    ) in
    let (w', run, stands, left, sent) = writer_loop_whole fd n ws w1 c1 there some_bytes room in
    let calls : cal_callback codec (c.inbuf ++ c_str b) c.outbuf ≡ some (i', o) =
      rw (v.inbuf_is, v.outbuf_is, c_str-eq_self b plain) (ground (arith, h)) in
    (
      w',
      recver_chunk_runs (cal_callback codec) b (i', o) fd w c v.stands v.can_write small calls
          ∙ ap (λ script. writer_loop script fd w1) v.writes_are
          ∙ run,
      record {
        stands = stands;
        can_write = v.can_write;
        inbuf_is = refl;
        outbuf_is = refl;
        writes_are = left;
        idle = cal_io-idle codec (i ++ b) [] i' o h;
      },
      sent,
    )

-- The whole way of a stream of messages through the server. Where the connection waits with no whole
-- message in its input buffer and an empty output buffer, the reads are short, hold no zero byte and
-- finish a message each, no message makes `cal_IO` throw or overflow, and the kernel takes each answer
-- whole, `recver` meets no fault;
-- what it sends is exactly what one call of `cal_IO` answers to all of the stream at once, and
-- what it keeps is what that call leaves.
pub recver_answers :
    (codec : Codec) (bs : List Bytes) (ws : List Write) (i : Bytes) (fd : ℕ) (w : World)
    (c : Connection)
    → IsWaiting fd i ws w c
    → Prompt codec i bs ws
    → Answered codec fd i bs w
unfolding recver_loop
recver_answers codec [] ws i fd w c v p = record {
  after = w;
  conn = c;
  rest = i;
  reply = [];
  runs = ground (arith, v.stands);
  waiting = record {
    stands = v.stands;
    can_write = v.can_write;
    inbuf_is = v.inbuf_is;
    outbuf_is = v.outbuf_is;
    writes_are = v.writes_are ∙ p;
    idle = v.idle;
  };
  served_as = rw append-nil (cal_io_idle codec i [] v.idle);
  sent = sym (append-nil _);
}
recver_answers codec (b ∷ bs) [] i fd w c v p = absurd p
recver_answers codec (b ∷ bs) (write_error e ∷ ws) i fd w c v p = absurd p
recver_answers codec (b ∷ bs) (took n ∷ ws) i fd w c v
      (small, plain, (i', o, h, some_bytes, room, p)) =
    let (w', run, waits, sent) =
      first_chunk codec b i i' o n ws fd w c v small plain h some_bytes room in
    let ih = recver_answers codec bs ws i' fd w' _ waits p in
    record {
      after = ih.after;
      conn = ih.conn;
      rest = ih.rest;
      reply = o ++ ih.reply;
      runs = rw (run, ◌>>=◌) ih.runs;
      waiting = ih.waiting;
      served_as = rw (← append_assoc) (
          cal_io-append codec (i ++ b) (join bs) [] i' o h
          ∙ cal_io_front codec (i' ++ join bs) o ih.rest ih.reply ih.served_as);
      sent = ih.sent ∙ rw sent (append_assoc _ o ih.reply);
    }
