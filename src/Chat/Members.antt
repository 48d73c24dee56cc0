-- ===== src/Chat/Members.antt =====
-- udp_t/chatroom_udp: who is in the room after a message.
use native.Mathlib.Omega.{arith}
use linux_learning_machine_c.Base.{
  ℕ, ◌^◌, ◌<◌, ◌≡◌, sym, ◌∙◌, ap, Bool, true, false, if◌then◌else◌, some, some-injective, [], ◌∷◌,
  ◌++◌, Bytes, codes, same, same-eq, length, take, drop, take-length, drop-suc-length, find,
  find_char, Lacks,
}
use linux_learning_machine_c.Base.Int.{pos}
use linux_learning_machine_c.Protocol.Decimal.{to_string, stoi, stoi-to_string}
use linux_learning_machine_c.Chat.Users.{Users, make_id, holds_id, is_online, add, erase}
use linux_learning_machine_c.Chat.Room.{Room, shell_server}

same_left : (i id j : Bytes) → same i id ≡ true → same i j ≡ same id j
same_left i id j h = ap (λ x. same x j) (same-eq i id h)

same_right : (i id j : Bytes) → same id j ≡ true → same i j ≡ same i id
same_right i id j h = ap (same i) (sym (same-eq id j h))

pub holds_id-erase :
    (j id : Bytes) (us : Users)
    → holds_id j (erase id us) ≡ (if same id j then false else holds_id j us)
unfolding holds_id erase
holds_id-erase j id [] = ground arith
holds_id-erase j id ((i, u) ∷ us) =
    ground (arith, holds_id-erase j id us, same_left i id j, same_right i id j)

holds_id-same : (i j : Bytes) (us : Users) → same i j ≡ true → holds_id j us ≡ holds_id i us
holds_id-same i j us h = ap (λ x. holds_id x us) (sym (same-eq i j h))

pub holds_id-add :
    (j ip : Bytes) (port : ℕ) (us : Users)
    → holds_id j (add ip port us) ≡ (if same (make_id ip port) j then true else holds_id j us)
unfolding holds_id add
holds_id-add j ip port us = ground (arith, holds_id-same (make_id ip port) j us)

-- What a message makes of its sender.
abbrev pub after_message : Bytes → Bool → Bool
after_message message was =
    if same message (codes "offline")
    then false
    else if same message (codes "online")
    then true
    else was

-- A message changes only whether its sender is in the room: "offline" takes the sender out, "online"
-- puts the sender in, and any other text leaves the sender as before. Nobody else is affected.
pub shell_server-is_online :
    (message ip ip' : Bytes) (port port' : ℕ) (r : Room)
    → is_online ip' port' (shell_server message ip port r).members ≡ (
        if same (make_id ip port) (make_id ip' port')
        then after_message message (is_online ip' port' r.members)
        else is_online ip' port' r.members)
unfolding shell_server
shell_server-is_online message ip ip' port port' r = ground (
  arith,
  holds_id-erase (make_id ip' port') (make_id ip port) r.members,
  holds_id-add (make_id ip' port') ip port r.members,
  holds_id-same (make_id ip port) (make_id ip' port') r.members,
)

to_string-injective :
    (p q : ℕ) → p < 2 ^ 16 → q < 2 ^ 16 → to_string (pos p) ≡ to_string (pos q) → p ≡ q
to_string-injective p q hp hq e =
    let a = stoi-to_string (pos p) [] (ground arith) tt in
    let b = stoi-to_string (pos q) [] (ground arith) tt in
    let c : some (pos p) ≡ some (pos q) = sym a ∙ ap (λ s. stoi (s ++ [])) e ∙ b in
    pos-injective (some-injective c)
  where
    pos-injective : {p q : ℕ} → pos p ≡ pos q → p ≡ q
    pos-injective h = cc h

-- Two addresses have the same id only if they are the same: no address as `inet_ntoa` prints it has a
-- dash, and a port is below 2 ^ 16.
pub make_id-injective :
    (ip ip' : Bytes) (port port' : ℕ)
    → Lacks b'-' ip
    → Lacks b'-' ip'
    → port < 2 ^ 16
    → port' < 2 ^ 16
    → make_id ip port ≡ make_id ip' port'
    → (ip ≡ ip') × (port ≡ port')
unfolding make_id
make_id-injective ip ip' port port' l l' h h' e =
    let s = to_string (pos port) in
    let s' = to_string (pos port') in
    let len : length ip ≡ length ip' =
      some-injective
        (sym (find_char b'-' ip s l) ∙ ap (find (b'-' ∷ [])) e ∙ find_char b'-' ip' s' l') in
    let front : ip ≡ ip' =
      sym (take-length ip (b'-' ∷ s))
      ∙ ap (take (length ip)) e
      ∙ ap (λ n. take n (ip' ++ b'-' ∷ s')) len
      ∙ take-length ip' (b'-' ∷ s') in
    let back : s ≡ s' =
      sym (drop-suc-length ip b'-' s)
      ∙ ap (drop (ℕ.suc (length ip))) e
      ∙ ap (λ n. drop (ℕ.suc n) (ip' ++ b'-' ∷ s')) len
      ∙ drop-suc-length ip' b'-' s' in
    (front, to_string-injective port port' h h' back)
