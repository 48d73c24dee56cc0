-- ===== src/Udp.antt =====
-- udp_t/shell_udp and udp_t/dict_udp: `udpServer::start`, which the two directories hold word for word,
-- and the callbacks `shellServer` and `dictServer`. What `recvfrom` and `sendto` give, and what a
-- command prints to `popen`, are arguments.
pub mod Replies
mod Tests
use linux_learning_machine_c.Base.{
  ℕ, zero, suc, ◌-◌, ◌==◌, ltb, if◌then◌else◌, Bool, true, false, Option, none, some, List, [], ◌∷◌,
  ◌++◌, Bytes, codes, length, c_str,
}
use linux_learning_machine_c.Dict.{Entries, find_word}

-- What `recvfrom` gives: an error, or the bytes with the ip and the port of the sender.
pub data Received : Type 0 where
  failed : Received
  datagram : Bytes → Bytes → ℕ → Received

-- The text of a `sendto`, and where it goes; `none` is the address that `memset` left.
pub record Reply : Type 0 where
  pub text : Bytes
  pub to : Option (Bytes × ℕ)

-- The server waits in `recvfrom`; it has called `exit(3)`; what it does is undefined.
pub data Ending : Type 0 where
  waiting exited undefined : Ending

abbrev pub Callback : Type 0
Callback = Bytes → Bytes → ℕ → Option Bytes

abbrev pub gnum : ℕ
gnum = 1024

-- A round of `start` up to `sendto`; `buffer[n] = 0` needs `n < gnum`.
abbrev pub reply : Callback → Received → Option Reply
reply callback failed = some (record { text = []; to = none })
reply callback (datagram [] ip port) = some (record { text = []; to = some (ip, port) })
reply callback (datagram (c ∷ s) ip port) =
    if ltb (length (c ∷ s)) gnum
    then elim (callback (c_str (c ∷ s)) ip port) [
      | none ↦ none
      | some result ↦ some (record { text = result; to = some (ip, port) })
    ]
    else none

-- `sendto`, which succeeds or not, and the rounds behind it.
abbrev pub send_on : Option Reply → Bool → List Reply × Ending → List Reply × Ending
send_on none w rest = ([], undefined)
send_on (some r) true (rs, ending) = (r ∷ rs, ending)
send_on (some r) false rest = (r ∷ [], exited)

-- `start`: what it sends, and how it ends. `sendto` succeeds where the list says so, and behind its end.
unfoldable pub start : Callback → List Received → List Bool → List Reply × Ending
start callback [] ws = ([], waiting)
start callback (d ∷ ds) [] = send_on (reply callback d) true (start callback ds [])
start callback (d ∷ ds) (w ∷ ws) = send_on (reply callback d) w (start callback ds ws)

-- `fgets(line, n + 1, fp)`: the line, and what is left.
unfoldable pub fgets : ℕ → Bytes → Bytes × Bytes
fgets n [] = ([], [])
fgets zero (c ∷ s) = ([], c ∷ s)
fgets (suc n) (c ∷ s) =
    let (line, rest) = fgets n s in if c == 10 then (c ∷ [], s) else (c ∷ line, rest)

-- The loop of `shellServer` over the output of the command.
unfoldable pub read_lines : ℕ → Bytes → Bytes → Bytes
read_lines zero out text = text
read_lines (suc fuel) [] text = text
read_lines (suc fuel) (c ∷ s) text =
    let (line, rest) = fgets 1023 (c ∷ s) in read_lines fuel rest (text ++ c_str line)

-- `shellServer`. Where `popen` fails `pclose` is given a null pointer, which is undefined.
unfoldable pub shell_server : (Bytes → Option Bytes) → Callback
shell_server popen cmd ip port = elim (popen cmd) [
  | none ↦ none
  | some out ↦ some (read_lines (suc (length out)) out [])
]

-- `dictServer`
unfoldable pub dict_server : Entries → Callback
dict_server entries index ip port = some (find_word index entries)
