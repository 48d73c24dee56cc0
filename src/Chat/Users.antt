-- ===== src/Chat/Users.antt =====
-- udp_t/chatroom_udp/users.hpp: `users`, the table of those who are in the room.
use linux_learning_machine_c.Base.{
  ℕ, Bool, true, false, if◌then◌else◌, List, [], ◌∷◌, ◌++◌, Bytes, codes, same,
}
use linux_learning_machine_c.Base.Int.{pos}
use linux_learning_machine_c.Protocol.Decimal.{to_string}

-- `user`
pub record User : Type 0 where
  pub ip : Bytes
  pub port : ℕ

-- `_map`: each id at most once.
abbrev pub Users : Type 0
Users = List (Bytes × User)

-- `ip + "-" + std::to_string(port)`
unfoldable pub make_id : Bytes → ℕ → Bytes
make_id ip port = ip ++ (b'-' ∷ to_string (pos port))

-- `_map.find(id) != _map.end()`
unfoldable pub holds_id : Bytes → Users → Bool
holds_id id [] = false
holds_id id ((i, u) ∷ us) = if same i id then true else holds_id id us

abbrev pub is_online : Bytes → ℕ → Users → Bool
is_online ip port us = holds_id (make_id ip port) us

-- `add`: `insert` keeps an entry that is there already.
unfoldable pub add : Bytes → ℕ → Users → Users
add ip port us =
    if is_online ip port us then us else (make_id ip port, record { ip = ip; port = port }) ∷ us

-- `del`, by the id.
unfoldable pub erase : Bytes → Users → Users
erase id [] = []
erase id ((i, u) ∷ us) = let rest = erase id us in if same i id then rest else (i, u) ∷ rest

abbrev pub del : Bytes → ℕ → Users → Users
del ip port us = erase (make_id ip port) us

-- A datagram that the server sends: the text and the address.
pub record Send : Type 0 where
  pub text : Bytes
  pub to_ip : Bytes
  pub to_port : ℕ

-- `broadcast`, in the order of the table.
unfoldable pub send_all : Bytes → Users → List Send
send_all msg [] = []
send_all msg ((i, u) ∷ us) = record { text = msg; to_ip = u.ip; to_port = u.port } ∷ send_all msg us

unfoldable pub broadcast : Bytes → Bytes → ℕ → Users → List Send
broadcast message ip port us =
    send_all ((codes "[" ++ make_id ip port) ++ (codes "] #" ++ message)) us
