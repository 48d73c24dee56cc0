-- ===== src/Chat/Tests.antt =====
-- The chat room of udp_t on concrete datagrams.
use mathlib.Core.Path.{◌≡◌, refl}
use linux_learning_machine_c.Base.{if◌then◌else◌, some, List, [], ◌∷◌, Bytes, codes, same}
use linux_learning_machine_c.Protocol.Decimal.{digits, to_string}
use linux_learning_machine_c.Chat.Users.{make_id, holds_id, is_online, add}
use linux_learning_machine_c.Chat.Room.{Room, shell_server, Datagram, receive, start}
use linux_learning_machine_c.Chat.Members.{after_message, shell_server-is_online}

abbrev anna : Bytes
anna = codes "10.0.0.1"

abbrev empty : Room
empty = record { members = []; sent = [] }

abbrev joined : Room
joined = record { members = (make_id anna 80, record { ip = anna; port = 80 }) ∷ []; sent = [] }

abbrev joins : List Datagram
joins = record { bytes = codes "online"; ip = anna; port = 80 } ∷ []

joins_run : start joins empty ≡ some joined
unfolding start receive shell_server add make_id holds_id to_string digits
joins_run = refl

shell_server-is_online_example :
    is_online anna 80 (shell_server (codes "online") anna 80 empty).members ≡ (
      if same (make_id anna 80) (make_id anna 80)
      then after_message (codes "online") (is_online anna 80 empty.members)
      else is_online anna 80 empty.members)
shell_server-is_online_example = shell_server-is_online (codes "online") anna anna 80 80 empty
