-- ===== src/Chat/Room.antt =====
-- udp_t/chatroom_udp/udpServer.cc and udpServer.hpp: the commands of the room and the server's loop.
use linux_learning_machine_c.Base.{
  ℕ, ltb, not, if◌then◌else◌, Option, none, some, ◌>>=◌, List, [], ◌∷◌, ◌++◌, Bytes, codes, same,
  length, c_str,
}
use linux_learning_machine_c.Chat.Users.{Users, is_online, add, del, Send, broadcast}

-- The table, and what the server has sent, oldest first.
pub record Room : Type 0 where
  pub members : Users
  pub sent : List Send

abbrev pub offline_notice : Bytes
offline_notice = codes "You are offline.Please input 'online' to enter the chat room!"

abbrev pub notify : Bytes → ℕ → Room → Room
notify ip port r = record r {
  sent = r.sent ++ record { text = offline_notice; to_ip = ip; to_port = port } ∷ [];
}

-- `shellServer`
unfoldable pub shell_server : Bytes → Bytes → ℕ → Room → Room
shell_server message ip port r =
    if same message (codes "offline")
    then record r { members = del ip port r.members }
    else if not (is_online ip port r.members)
    then (if same message (codes "online")
        then record r { members = add ip port r.members }
        else notify ip port r)
    else record r { sent = r.sent ++ broadcast message ip port r.members }

abbrev pub gnum : ℕ
gnum = 1024

-- What `recvfrom` gives.
pub record Datagram : Type 0 where
  pub bytes : Bytes
  pub ip : Bytes
  pub port : ℕ

-- `start`: an empty datagram is passed over, and `buffer[n] = 0` needs `n < gnum`; otherwise it is
-- undefined, here `none`. `recvfrom` that fails gives no datagram.
unfoldable pub receive : Datagram → Room → Option Room
unfolding shell_server
receive d r = elim d.bytes [
  | [] ↦ some r
  | c ∷ s ↦
      if ltb (length (c ∷ s)) gnum then some (shell_server (c_str (c ∷ s)) d.ip d.port r) else none
]

unfoldable pub start : List Datagram → Room → Option Room
unfolding receive
start [] r = some r
start (d ∷ ds) r = receive d r >>= λ r'. start ds r'
