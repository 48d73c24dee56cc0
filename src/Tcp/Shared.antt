-- ===== src/Tcp/Shared.antt =====
-- tcp_t/protocol_cus: the static buffer of `recvmessage`, which all connections share.
use linux_learning_machine_c.Base.{
  ℕ, List, ◌≡◌, ◌≢◌, sym, ◌∙◌, ap, lt→ltb, some, [], ◌∷◌, ◌++◌, All-append, append-nil,
  append_assoc, Bytes, Lacks, c_str, c_str-eq_self, length,
}
use linux_learning_machine_c.Protocol.Frame as Frame
use linux_learning_machine_c.Protocol.Frame.{carriage_return, end_mark, encode}
use linux_learning_machine_c.Protocol.Frame.Cut.{recvmessage-encode}
use linux_learning_machine_c.Reactor.Kernel.{Read}
use linux_learning_machine_c.Tcp.Receive.{
  Received, message, no_message, overflowed, receive, tmp_size,
}
use linux_learning_machine_c.Tcp.Conversation.{IsShort}

-- The buffer that a call leaves to the next.
abbrev pub left_in : Received → Bytes
left_in (message m left rest) = left
left_in (no_message how left) = left
left_in overflowed = []

-- The calls of `recvmessage` in one process, in the order in which they are made, one at a time: each
-- with the descriptor of its client and what `read` gives it. The buffer passes from call to call.
unfoldable pub calls : List (ℕ × List Read) → Bytes → List (ℕ × Received)
calls [] buffer = []
calls ((fd, rs) ∷ cs) buffer =
    let received = receive rs buffer in (fd, received) ∷ calls cs (left_in received)

-- One read that completes a message.
receive_got :
    (tmp buffer : Bytes) {m rest : Bytes}
    → IsShort tmp
    → Frame.recvmessage (buffer ++ tmp) ≡ some (m, rest)
    → receive (Read.got tmp ∷ []) buffer ≡ message m rest []
unfolding receive
receive_got tmp buffer {m} {rest} (short, text) cut =
    let whole : Frame.recvmessage (buffer ++ c_str tmp) ≡ some (m, rest) =
      ap (λ x. Frame.recvmessage (buffer ++ x)) (c_str-eq_self tmp text) ∙ cut in
    rw (lt→ltb (length tmp) tmp_size short, whole)

encode_append : (a b : Bytes) → a ++ encode b ≡ encode (a ++ b)
unfolding encode
encode_append a b = sym (append_assoc a b end_mark)

-- Where the read of one client brings a message `m` and the beginning `x` of its next one, and the next
-- call is made for another client, whose read brings its message `y`: the server takes `x` and `y`
-- together for one message of that client, nothing of `x` is left for the client that sent it, and the
-- calls behind go on from an empty buffer.
pub calls_mix :
    (first second : ℕ) (m x y : Bytes) (more : List (ℕ × List Read))
    → first ≢ second
    → Lacks carriage_return m
    → Lacks carriage_return x
    → Lacks carriage_return y
    → IsShort (encode m ++ x)
    → IsShort (encode y)
    → calls ((first, Read.got (encode m ++ x) ∷ []) ∷ (second, Read.got (encode y) ∷ []) ∷ more) []
      ≡ (first, message (encode m) x []) ∷ (second, message (encode (x ++ y)) [] []) ∷ calls more []
unfolding calls
calls_mix first second m x y more distinct hm hx hy short_first short_second = rw (
  receive_got (encode m ++ x) [] short_first (recvmessage-encode m x hm),
  receive_got (encode y) x short_second (
      ap Frame.recvmessage (encode_append x y ∙ sym (append-nil (encode (x ++ y))))
      ∙ recvmessage-encode (x ++ y) [] (All-append (λ c. c ≢ carriage_return) x y hx hy)),
)
