-- ===== src/Tcp/Tests.antt =====
-- A session of the server of tcp_t/protocol_cus on concrete reads.
use mathlib.Core.Path.{◌≡◌, refl}
use linux_learning_machine_c.Base.{
  ℕ, ◌+◌, ◌≤◌, none, total, some, arith, ◌≢◌, List, [], ◌∷◌, ◌++◌, codes, find,
}
use linux_learning_machine_c.Base.Int.{pos, ◌+ℤ◌}
use linux_learning_machine_c.Cal.{Equation, Result, normol, calculator}
use linux_learning_machine_c.Protocol.Frame.{end_mark, decode, encode, recvmessage}
use linux_learning_machine_c.Protocol.Decimal.{digits, to_string, stoi}
use linux_learning_machine_c.Protocol.Message.Text.{
  text_codec, text_codec-IsCodec, write_request, write_response, read_request,
}
use linux_learning_machine_c.Service.Calculator.{answer, cal_io}
use linux_learning_machine_c.Service.Calculator.Stream.{requests, responses}
use linux_learning_machine_c.Tcp.Client.{going, calclient_io}
use linux_learning_machine_c.Tcp.Threaded.{
  Server, started, done, is_created, Run, stop, step, connect, end_round, fetch, finish,
}
use linux_learning_machine_c.Tcp.Threaded.Service.{holds, count, prompt_serves}
use linux_learning_machine_c.Tcp.Conversation.{request_reads, response_reads, conversation}
use linux_learning_machine_c.Reactor.Kernel.{Read}
use linux_learning_machine_c.Tcp.Receive.{message, waits, receive}
use linux_learning_machine_c.Tcp.Session.{ended, exhausted, serve_client, calserver_io}
use linux_learning_machine_c.Tcp.Shared.{calls, calls_mix}
use linux_learning_machine_c.Tcp.Ends.{calserver_io_ends}
use linux_learning_machine_c.Tcp.Stream.{bytes_of, calserver_io-cal_io}

-- Two requests in one read: the second is never answered.
abbrev two_at_once : List Read
two_at_once = Read.got ((codes "1 2 +" ++ end_mark) ++ (codes "3 4 +" ++ end_mark)) ∷ []

session_runs :
    calserver_io text_codec two_at_once [] []
    ≡ ended waits (codes "3 0" ++ end_mark) (codes "3 4 +" ++ end_mark)
unfolding calserver_io serve_client receive answer calculator decode encode recvmessage digits
    to_string stoi write_response read_request find ◌+ℤ◌
session_runs = refl

calserver_io-cal_io_example :
    cal_io text_codec ([] ++ bytes_of two_at_once) []
    ≡ cal_io text_codec (codes "3 4 +" ++ end_mark) ([] ++ (codes "3 0" ++ end_mark))
calserver_io-cal_io_example =
    calserver_io-cal_io text_codec two_at_once [] [] waits (codes "3 0" ++ end_mark)
      (codes "3 4 +" ++ end_mark) [] session_runs

-- The client sends half a request and closes.
calserver_io_ends_example :
    (calserver_io text_codec (Read.got (codes "1 2") ∷ Read.closed ∷ []) [] []
      ≢ ended waits [] (codes "1 2"))
    × (calserver_io text_codec (Read.got (codes "1 2") ∷ Read.closed ∷ []) [] [] ≢ exhausted)
calserver_io_ends_example =
    calserver_io_ends text_codec (Read.got (codes "1 2") ∷ Read.closed ∷ []) [] [] [] (codes "1 2")
      tt

abbrev sum : Equation
sum = record { x = pos 1; y = pos 2; op = b'+' }

abbrev three : Result
three = record { num = pos 3; code = normol }

sum_answer : calculator sum ≡ some three
unfolding calculator ◌+ℤ◌
sum_answer = refl

conversation_example :
    (calclient_io text_codec (sum ∷ []) [] (response_reads text_codec (three ∷ [])) []
      ≡ going (requests text_codec (sum ∷ [])) (three ∷ []) [] [])
    × (calserver_io text_codec (request_reads text_codec (sum ∷ [])) [] []
        ≡ ended waits (responses text_codec (three ∷ [])) [])
unfolding encode write_request write_response to_string digits
conversation_example =
    conversation text_codec text_codec-IsCodec (sum ∷ []) (three ∷ [])
      ((
        record { x_fits = refl; y_fits = refl; op_byte = omega arith; op_line = omega arith },
        sum_answer,
        tt,
      ))
      ((omega arith, omega arith), tt) ((refl, (omega arith, omega arith)), tt)

-- One client sends "1 2 +" and begins "1", and another sends "2 3 *".
calls_mix_example :
    calls
      ((4, Read.got (encode (codes "1 2 +") ++ codes "1") ∷ [])
        ∷ (5, Read.got (encode (codes "2 3 *")) ∷ [])
        ∷ [])
      []
    ≡ (4, message (encode (codes "1 2 +")) (codes "1") [])
      ∷ (5, message (encode (codes "12 3 *")) [] [])
      ∷ calls [] []
unfolding encode
calls_mix_example =
    calls_mix 4 5 (codes "1 2 +") (codes "1") (codes "2 3 *") [] (omega arith) (omega arith)
      (omega arith) (omega arith) (omega arith, omega arith) (omega arith, omega arith)

-- One client is accepted, served and closed.
abbrev one_client :
    Run started
      (some (record { local = none; threads = done 5 ∷ []; accepted = 5 ∷ []; closed = 5 ∷ [] }))
one_client =
    step (connect 5 refl)
      (step (fetch 0 5 refl refl) (step (end_round 5 refl) (step (finish 0 5 refl) stop)))

prompt_serves_example :
    (s : Server) × (some
        (record { local = none; threads = done 5 ∷ []; accepted = 5 ∷ []; closed = 5 ∷ [] })
      ≡ some s)
    × ((k : ℕ)
        → (total (holds k) s.threads ≤ count k s.accepted)
          × (count k s.accepted ≤ total (holds k) s.threads + total is_created s.threads)
          × (count k s.closed ≤ total (holds k) s.threads))
prompt_serves_example = prompt_serves _ one_client (tt, (tt, (refl, (tt, tt))))
