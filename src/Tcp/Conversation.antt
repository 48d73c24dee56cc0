-- ===== src/Tcp/Conversation.antt =====
-- tcp_t/protocol_cus: a client and the server, message by message.
use linux_learning_machine_c.Base.{
  ℕ, zero, suc, ◌<◌, ◌≡◌, refl, sym, ◌∙◌, ap, true, lt→ltb, some, List, [], ◌∷◌, All, append-nil,
  Bytes, Lacks, c_str-eq_self, length, map, arith,
}
use linux_learning_machine_c.Base.Int.{fits}
use linux_learning_machine_c.Cal.{Equation, Result}
use linux_learning_machine_c.Protocol.Frame as Frame
use linux_learning_machine_c.Protocol.Frame.{carriage_return, encode, decode}
use linux_learning_machine_c.Protocol.Frame.Cut.{recvmessage-encode, decode-encode}
use linux_learning_machine_c.Protocol.Message.Codec.{Codec, IsCodec}
use linux_learning_machine_c.Service.Calculator.Stream.{
  Answered, requests, responses, answer-encode,
}
use linux_learning_machine_c.Reactor.Kernel.{Read}
use linux_learning_machine_c.Tcp.Receive.{waits, message, receive, tmp_size}
use linux_learning_machine_c.Tcp.Session.{ended, serve_client, calserver_io}
use linux_learning_machine_c.Tcp.Client.{going, calclient_io}

-- A message that one `read` gives whole.
abbrev pub IsShort : Bytes → Type 0
IsShort m = (length m < tmp_size) × Lacks 0 m

-- A message that arrives alone is received at once, and nothing is left of it.
pub receive-encode :
    (m : Bytes) (rs : List Read)
    → Lacks carriage_return m
    → IsShort (encode m)
    → receive (Read.got (encode m) ∷ rs) [] ≡ message (encode m) [] rs
unfolding receive
receive-encode m rs h (short, text) =
    let whole = c_str-eq_self (encode m) text in
    let cut : Frame.recvmessage (encode m) ≡ some (encode m, []) =
      ap Frame.recvmessage (sym (append-nil (encode m))) ∙ recvmessage-encode m [] h in
    rw (lt→ltb (length (encode m)) tmp_size short, whole, cut)

module _ (c : Codec) where
  -- What the server reads, and what the client reads, each message by a `read` of its own.
  abbrev pub request_reads : List Equation → List Read
  request_reads = map (λ e. Read.got (encode (c.write_request e)))

  abbrev pub response_reads : List Result → List Read
  response_reads = map (λ r. Read.got (encode (c.write_response r)))

  client_side :
      IsCodec c
      → (es : List Equation) (rs : List Result) → Answered es rs
      → All (λ r. (fits r.num ≡ true) × IsShort (encode (c.write_response r))) rs
      → calclient_io c es [] (response_reads rs) [] ≡ going (requests c es) rs [] []
  unfolding calclient_io
  client_side laws [] [] h ok = refl
  client_side laws [] (r ∷ rs) h ok = absurd h
  client_side laws (e ∷ es) [] h ok = absurd h
  client_side laws (e ∷ es) (r ∷ rs) (s, a, h) ((fit, short), ok) =
      let got =
        receive-encode (c.write_response r) (response_reads rs) (laws.response_line r) short in
      let back = decode-encode (c.write_response r) (laws.response_line r) in
      let read : c.read_response (c.write_response r) ≡ some r = laws.response_back r fit in
      rw (got, back, read, client_side laws es rs h ok)

  server_done : (fuel : ℕ) → serve_client c (suc fuel) [] [] [] ≡ ended waits [] []
  unfolding serve_client receive
  server_done fuel = refl

  server_side :
      IsCodec c
      → (fuel : ℕ) (es : List Equation) (rs : List Result) → Answered es rs
      → All (λ e. IsShort (encode (c.write_request e))) es
      → length es < fuel
      → serve_client c fuel (request_reads es) [] [] ≡ ended waits (responses c rs) []
  unfolding serve_client
  server_side laws zero es rs h ok enough = elim enough [ ]
  server_side laws (suc fuel) [] [] h ok enough = server_done fuel
  server_side laws (suc fuel) [] (r ∷ rs) h ok enough = absurd h
  server_side laws (suc fuel) (e ∷ es) [] h ok enough = absurd h
  server_side laws (suc fuel) (e ∷ es) (r ∷ rs) (s, a, h) (short, ok) enough =
      let got =
        receive-encode (c.write_request e) (request_reads es) (laws.request_line e s) short in
      rw (
        got,
        answer-encode c laws e r s a,
        server_side laws fuel es rs h ok (omega arith),
        serve_client,
      )

  length-request_reads : (es : List Equation) → length (request_reads es) ≡ length es
  length-request_reads [] = refl
  length-request_reads (e ∷ es) = ap suc (length-request_reads es)

  -- A client and the server, where each message comes whole in one read: the client sends exactly what
  -- the server reads, the server sends exactly what the client reads, nothing is left in either buffer,
  -- and the results that the client shows are those that the calculator gives its equations, in order.
  pub conversation :
      IsCodec c
      → (es : List Equation) (rs : List Result) → Answered es rs
      → All (λ e. IsShort (encode (c.write_request e))) es
      → All (λ r. (fits r.num ≡ true) × IsShort (encode (c.write_response r))) rs
      → (calclient_io c es [] (response_reads rs) [] ≡ going (requests c es) rs [] [])
        × (calserver_io c (request_reads es) [] [] ≡ ended waits (responses c rs) [])
  unfolding calserver_io
  conversation laws es rs h sent ok =
      let count = length-request_reads es in
      (
        client_side laws es rs h ok,
        server_side laws (suc (length (request_reads es))) es rs h sent (omega (arith, count)),
      )
