-- ===== src/Chat/Table.antt =====
-- udp_t/chatroom_udp: the table holds each member once, and a broadcast reaches each member once.
use mathlib.Core.Path.{subst}
use linux_learning_machine_c.Base.{
  ℕ, ◌+◌, ◌≤◌, ◌≡◌, refl, sym, ◌∙◌, ap, true, false, not, ltb, if◌then◌else◌, if-elim, Bool-cases,
  inl, inr, some, >>=-eq-some, some-injective, List, [], ◌∷◌, Bytes, codes, same, same-eq, length,
  All, arith, c_str,
}
use linux_learning_machine_c.Chat.Users.{
  User, Users, make_id, holds_id, is_online, add, erase, Send, send_all, broadcast,
}
use linux_learning_machine_c.Chat.Room.{Room, shell_server, Datagram, receive, start}

-- One for an id that is the other.
abbrev pub hit : Bytes → Bytes → ℕ
hit i j = if same i j then 1 else 0

-- How often an id stands in the table, and how often it is sent to.
unfoldable pub entries : Bytes → Users → ℕ
entries j [] = 0
entries j ((i, u) ∷ us) = hit i j + entries j us

unfoldable pub sends_to : Bytes → List Send → ℕ
sends_to j [] = 0
sends_to j (s ∷ ss) = hit (make_id s.to_ip s.to_port) j + sends_to j ss

abbrev pub IsUnderId : Bytes × User → Type 0
IsUnderId (i, u) = i ≡ make_id u.ip u.port

-- Every entry stands under its id, and no id stands twice.
abbrev pub IsFiled : Users → Type 0
IsFiled us = All IsUnderId us × ((j : Bytes) → entries j us ≤ 1)

entries-holds_id : (j : Bytes) (us : Users) → holds_id j us ≡ false → entries j us ≡ 0
unfolding entries holds_id
entries-holds_id j [] h = refl
entries-holds_id j ((i, u) ∷ us) h = ground (arith, entries-holds_id j us)

holds_id-entries : (j : Bytes) (us : Users) → holds_id j us ≡ true → 1 ≤ entries j us
unfolding entries holds_id
holds_id-entries j [] h = cc
holds_id-entries j ((i, u) ∷ us) h = ground (arith, holds_id-entries j us)

erase-entries : (j id : Bytes) (us : Users) → entries j (erase id us) ≤ entries j us
unfolding entries erase
erase-entries j id [] = omega arith
erase-entries j id ((i, u) ∷ us) = ground (arith, erase-entries j id us)

erase-IsUnderId : (id : Bytes) (us : Users) → All IsUnderId us → All IsUnderId (erase id us)
unfolding erase
erase-IsUnderId id [] h = tt
erase-IsUnderId id ((i, u) ∷ us) h =
    if-elim (All IsUnderId) (same i id) (erase-IsUnderId id us h.1) (h.0, erase-IsUnderId id us h.1)

erase-IsFiled : (id : Bytes) (us : Users) → IsFiled us → IsFiled (erase id us)
erase-IsFiled id us (under, once) =
    (erase-IsUnderId id us under, λ j. omega (arith, once j, erase-entries j id us))

entries-same : (i j : Bytes) (us : Users) → same i j ≡ true → entries j us ≡ entries i us
entries-same i j us h = ap (λ x. entries x us) (sym (same-eq i j h))

add-IsFiled : (ip : Bytes) (port : ℕ) (us : Users) → IsFiled us → IsFiled (add ip port us)
unfolding add entries
add-IsFiled ip port us (under, once) = elim (Bool-cases (holds_id (make_id ip port) us)) [
  | inl e ↦ rw (e) (under, once)
  | inr e ↦ rw (e) ((refl, under), new e)
]
  where
    new :
        holds_id (make_id ip port) us ≡ false
        → (j : Bytes) → entries j ((make_id ip port, record { ip = ip; port = port }) ∷ us) ≤ 1
    new e j = ground (
      arith,
      once j,
      entries-same (make_id ip port) j us,
      entries-holds_id (make_id ip port) us e,
    )

shell_server-IsFiled :
    (message ip : Bytes) (port : ℕ) (r : Room)
    → IsFiled r.members
    → IsFiled (shell_server message ip port r).members
unfolding shell_server
shell_server-IsFiled message ip port r v =
    let P : Room → Type 0 = λ x. IsFiled x.members in
    if-elim P (same message (codes "offline")) (erase-IsFiled (make_id ip port) r.members v) (
      if-elim P (not (is_online ip port r.members))
        (if-elim P (same message (codes "online")) (add-IsFiled ip port r.members v) v) v)

receive-IsFiled :
    (b ip : Bytes) (port : ℕ) (r r' : Room)
    → receive (record { bytes = b; ip = ip; port = port }) r ≡ some r'
    → IsFiled r.members
    → IsFiled r'.members
unfolding receive
receive-IsFiled [] ip port r r' = λ e v. subst (λ x. IsFiled x.members) (some-injective e) v
receive-IsFiled (c ∷ s) ip port r r' =
    if-elim (λ o. o ≡ some r' → IsFiled r.members → IsFiled r'.members) (ltb (length (c ∷ s)) 1024)
      (λ e v.
        subst (λ x. IsFiled x.members) (some-injective e)
          (shell_server-IsFiled (c_str (c ∷ s)) ip port r v))
      (λ e v. cc)

-- Whatever datagrams come, the table files every member under the id of its address, and no id twice.
pub start-IsFiled :
    (ds : List Datagram) (r r' : Room)
    → start ds r ≡ some r'
    → IsFiled r.members
    → IsFiled r'.members
unfolding start
start-IsFiled [] r r' h v = subst (λ x. IsFiled x.members) (some-injective h) v
start-IsFiled (d ∷ ds) r r' h v =
    let (r1, e, k) = >>=-eq-some (receive d r) _ h in
    start-IsFiled ds r1 r' k (receive-IsFiled d.bytes d.ip d.port r r1 e v)

send_all-entries :
    (msg j : Bytes) (us : Users) → All IsUnderId us → sends_to j (send_all msg us) ≡ entries j us
unfolding sends_to send_all entries
send_all-entries msg j [] h = refl
send_all-entries msg j ((i, u) ∷ us) h =
    omega (arith, ap (λ x. hit x j) h.0, send_all-entries msg j us h.1)

-- A broadcast sends to everyone in the room exactly once, and to nobody else.
pub broadcast-once :
    (message ip ip' : Bytes) (port port' : ℕ) (us : Users)
    → IsFiled us
    → sends_to (make_id ip' port') (broadcast message ip port us)
      ≡ (if is_online ip' port' us then 1 else 0)
unfolding broadcast
broadcast-once message ip ip' port port' us (under, once) =
    let j = make_id ip' port' in
    send_all-entries _ j us under
    ∙ ground (arith, once j, entries-holds_id j us, holds_id-entries j us)
