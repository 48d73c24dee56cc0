-- ===== src/Protocol/Tests.antt =====
-- Runs of the message format of IO/reactor/protocol.hpp, its theorems at concrete messages.
use linux_learning_machine_c.Base.{◌≡◌, refl, none, some, ◌++◌, codes, find}
use linux_learning_machine_c.Base.Int.{pos, negsuc}
use linux_learning_machine_c.Cal.{Equation}
use linux_learning_machine_c.Protocol.Frame.{end_mark, recvmessage}
use linux_learning_machine_c.Protocol.Decimal.{to_string, stoi, digits}
use linux_learning_machine_c.Protocol.Message.Text.{write_request, read_request}
use linux_learning_machine_c.Protocol.Message.Codec.{IsCodec}
use linux_learning_machine_c.Protocol.Message.Json.{json_codec, json_codec-IsCodec}
use linux_learning_machine_c.Protocol.FlatJson.{flat_lib}

abbrev sum : Equation
sum = record { x = pos 30; y = negsuc 4; op = b'+' }

write_request_runs : write_request sum ≡ codes "30 -5 +"
unfolding write_request to_string digits
write_request_runs = refl

read_request_runs :
    (read_request (codes "30 -5 +") ≡ some sum)
    × (read_request (codes "30") ≡ some (record { x = pos 30; y = pos 30; op = b'0' }))
unfolding read_request stoi find
read_request_runs = (refl, refl)

recvmessage_runs :
    (recvmessage (codes "ab" ++ end_mark ++ codes "c") ≡ some (codes "ab" ++ end_mark, codes "c"))
    × (recvmessage (codes "ab") ≡ none)
unfolding recvmessage find
recvmessage_runs = (refl, refl)

json_codec-IsCodec_example : IsCodec (json_codec flat_lib)
json_codec-IsCodec_example = json_codec-IsCodec flat_lib
