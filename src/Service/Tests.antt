-- ===== src/Service/Tests.antt =====
-- Runs of `cal_IO` of IO/reactor/test.cc, and its theorems at concrete streams.
use linux_learning_machine_c.Base.{◌≡◌, refl, ◌≢◌, List, [], ◌∷◌, ◌++◌, Bytes, codes, find, arith}
use linux_learning_machine_c.Base.Int.{pos, ◌+ℤ◌, quot}
use linux_learning_machine_c.Cal.{Equation, Result, calculator, normal, failed, devzero}
use linux_learning_machine_c.Protocol.Frame.{end_mark, decode, encode, recvmessage}
use linux_learning_machine_c.Protocol.Decimal.{to_string, stoi, digits}
use linux_learning_machine_c.Protocol.Message.Text.{
  write_request, read_request, write_response, text_codec, text_codec-IsCodec,
}
use linux_learning_machine_c.Service.Calculator.{
  Served, served, crashed, exhausted, answer, serve, cal_io,
}
use linux_learning_machine_c.Service.Calculator.Refine.{cal_io-append, cal_io-ne-exhausted}
use linux_learning_machine_c.Service.Calculator.Stream.{
  Answered, requests, responses, cal_io-requests,
}

abbrev stream : Bytes
stream = codes "3 4 +" ++ end_mark ++ codes "9 0 /" ++ end_mark ++ codes "1"

abbrev replies : Bytes
replies = codes "7 0" ++ end_mark ++ codes "0 1" ++ end_mark

-- The functions that a run of the service goes through.
runs : Served
unfolding cal_io serve answer recvmessage decode encode find read_request write_request
    write_response to_string digits stoi calculator quot ◌+ℤ◌
runs = cal_io text_codec stream []

stream_runs : cal_io text_codec stream [] ≡ served (codes "1") replies
unfolding runs
stream_runs = refl

bad_request_runs : cal_io text_codec (codes "x" ++ end_mark) [] ≡ crashed
unfolding runs
bad_request_runs = refl

cal_io-append_example :
    cal_io text_codec (stream ++ codes " 2 *") []
    ≡ cal_io text_codec (codes "1" ++ codes " 2 *") replies
cal_io-append_example =
    cal_io-append text_codec stream (codes " 2 *") [] (codes "1") replies stream_runs

cal_io-ne-exhausted_example : cal_io text_codec stream [] ≢ exhausted
cal_io-ne-exhausted_example = cal_io-ne-exhausted text_codec stream []

abbrev asked : List Equation
asked = record { x = pos 3; y = pos 4; op = b'+' } ∷ record { x = pos 9; y = pos 0; op = b'/' } ∷ []

abbrev results : List Result
results = normal (pos 7) ∷ failed devzero ∷ []

asked-Answered : Answered asked results
unfolding calculator ◌+ℤ◌
asked-Answered = (
  record { x_fits = refl; y_fits = refl; op_byte = omega arith; op_line = omega arith },
  refl,
  (record { x_fits = refl; y_fits = refl; op_byte = omega arith; op_line = omega arith }, refl, tt),
)

cal_io-requests_example :
    cal_io text_codec (requests text_codec asked ++ codes "1") []
    ≡ served (codes "1") ([] ++ responses text_codec results)
unfolding recvmessage find
cal_io-requests_example =
    cal_io-requests text_codec text_codec-IsCodec asked results (codes "1") [] asked-Answered refl
