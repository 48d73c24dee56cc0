-- ===== src/Protocol/Message/Codec.antt =====
-- What a server needs of IO/reactor/protocol.hpp: the four translations of `request` and `response`,
-- and the laws that either build of them satisfies.
use linux_learning_machine_c.Base.{◌^◌, ◌<◌, ◌≡◌, ◌≢◌, true, Option, some, Bytes, Lacks}
use linux_learning_machine_c.Base.Int.{fits}
use linux_learning_machine_c.Cal.{Equation, Result}
use linux_learning_machine_c.Protocol.Frame.{carriage_return}

pub record Codec : Type 0 where
  pub write_request : Equation → Bytes
  pub read_request : Bytes → Option Equation
  pub write_response : Result → Bytes
  pub read_response : Bytes → Option Result

-- Both numbers are `int`s and the operator is a byte that does not start the end mark.
pub record IsSendable (e : Equation) : Type 0 where
  pub x_fits : fits e.x ≡ true
  pub y_fits : fits e.y ≡ true
  pub op_byte : e.op < 2 ^ 8
  pub op_line : e.op ≢ carriage_return

pub record IsCodec (c : Codec) : Type 0 where
  pub request_back : (e : Equation) → IsSendable e → c.read_request (c.write_request e) ≡ some e
  pub request_line : (e : Equation) → IsSendable e → Lacks carriage_return (c.write_request e)
  pub response_back :
      (r : Result) → fits r.num ≡ true → c.read_response (c.write_response r) ≡ some r
  pub response_line : (r : Result) → Lacks carriage_return (c.write_response r)
