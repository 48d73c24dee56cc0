-- ===== src/Service/Calculator/Stream.antt =====
-- `cal_IO` of IO/reactor/test.cc against the requests that clients encode.
use linux_learning_machine_c.Base.{
  ◌≡◌, ◌∙◌, ap, none, some, List, [], ◌∷◌, ◌++◌, append-nil, append_assoc, Bytes,
}
use linux_learning_machine_c.Cal.{Equation, Result, calculator}
use linux_learning_machine_c.Protocol.Frame.{encode, recvmessage}
use linux_learning_machine_c.Protocol.Frame.Cut.{recvmessage-encode, decode-encode}
use linux_learning_machine_c.Protocol.Message.Codec.{Codec, IsCodec, IsSendable}
use linux_learning_machine_c.Service.Calculator.{served, answer, cal_io}
use linux_learning_machine_c.Service.Calculator.Refine.{cal_io_idle, cal_io_round}

-- Each equation can be sent, and the calculator gives it the result that stands beside it.
abbrev pub Answered : List Equation → List Result → Type 0
Answered [] [] = Unit
Answered [] (r ∷ rs) = ⊥
Answered (e ∷ es) [] = ⊥
Answered (e ∷ es) (r ∷ rs) = IsSendable e × (calculator e ≡ some r) × Answered es rs

module _ (c : Codec) where
  -- What a client sends, and what it should get.
  abbrev pub requests : List Equation → Bytes
  requests [] = []
  requests (e ∷ es) = encode (c.write_request e) ++ requests es

  abbrev pub responses : List Result → Bytes
  responses [] = []
  responses (r ∷ rs) = encode (c.write_response r) ++ responses rs

  pub answer-encode :
      IsCodec c
      → (e : Equation) (r : Result) → IsSendable e
      → calculator e ≡ some r
      → answer c (encode (c.write_request e)) ≡ some (encode (c.write_response r))
  unfolding answer
  answer-encode laws e r s h =
      rw (decode-encode (c.write_request e) (laws.request_line e s), laws.request_back e s, h)

  -- For a lawful codec, a run of encoded requests whose equations are two `int` and a byte
  -- other than a carriage return as the operator, and have a defined result, with anything behind it
  -- that holds no whole message, is answered message by message, in order, exactly once each, and the
  -- incomplete rest stays.
  pub cal_io-requests :
      IsCodec c
      → (es : List Equation) (rs : List Result) (t out : Bytes) → Answered es rs
      → recvmessage t ≡ none
      → cal_io c (requests es ++ t) out ≡ served t (out ++ responses rs)
  cal_io-requests laws [] [] t out h idle = rw append-nil (cal_io_idle c t out idle)
  cal_io-requests laws [] (r ∷ rs) t out h idle = absurd h
  cal_io-requests laws (e ∷ es) [] t out h idle = absurd h
  cal_io-requests laws (e ∷ es) (r ∷ rs) t out (s, a, h) idle = rw append_assoc (
      cal_io_round c _ (encode (c.write_request e)) (requests es ++ t) out
        (encode (c.write_response r))
        (recvmessage-encode (c.write_request e) (requests es ++ t) (laws.request_line e s))
        (answer-encode laws e r s a)
      ∙ cal_io-requests laws es rs t (out ++ encode (c.write_response r)) h idle
      ∙ ap (served t) (append_assoc out _ (responses rs)))
