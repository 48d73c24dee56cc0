-- ===== src/Service/Calculator.antt =====
-- `cal_IO` of IO/reactor/test.cc: every complete message in the input buffer is answered.
pub mod Refine
pub mod Stream
use linux_learning_machine_c.Base.{
  ℕ, zero, suc, Option, none, some, ◌>>=◌, List, [], ◌∷◌, ◌++◌, length, Bytes,
}
use linux_learning_machine_c.Cal.{calculator}
use linux_learning_machine_c.Protocol.Frame.{decode, encode, recvmessage}
use linux_learning_machine_c.Protocol.Message.Codec.{Codec}

-- What a call leaves: both buffers, a crash (an exception that nothing catches, or an undefined
-- operation), or the end of the fuel.
pub data Served : Type 0 where
  served : Bytes → Bytes → Served
  crashed : Served
  exhausted : Served

module _ (c : Codec) where
  -- One round of the loop, from the pack to the bytes that it puts in the output buffer.
  unfoldable pub answer : Bytes → Option Bytes
  answer pack = decode pack >>= λ text.
      c.read_request text >>= λ eq. calculator eq >>= λ res. some (encode (c.write_response res))

  -- `while (recvmessage(in, &pack))`. Each round takes two bytes or more off the input.
  unfoldable pub serve : ℕ → Bytes → Bytes → Served
  serve zero inbuf outbuf = exhausted
  serve (suc fuel) inbuf outbuf = elim (recvmessage inbuf) [
    | none ↦ served inbuf outbuf
    | some (pack, rest) ↦ elim (answer pack) [
      | none ↦ crashed
      | some resp ↦ serve fuel rest (outbuf ++ resp)
    ]
  ]

  unfoldable pub cal_io : Bytes → Bytes → Served
  cal_io inbuf outbuf = serve (suc (length inbuf)) inbuf outbuf

  -- `cal_IO` as the callback of the server: an exception or an undefined operation is `none`.
  unfoldable pub cal_callback : Bytes → Bytes → Option (Bytes × Bytes)
  cal_callback inbuf outbuf = elim (cal_io inbuf outbuf) [ served i o ↦ some (i, o) | _ ↦ none ]
