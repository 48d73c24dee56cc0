-- ===== src/Protocol/Frame.antt =====
-- IO/reactor/protocol.hpp: a message ends with "\r\n"; `recvmessage` cuts one off the input.
pub mod Cut
use linux_learning_machine_c.Base.{
  ℕ, ◌+◌, Option, none, some, List, [], ◌∷◌, ◌++◌, ◌==◌, if◌then◌else◌, Bytes, find, substr, drop,
  length,
}

-- `SEP`
abbrev pub sep : ℕ
sep = b' '

abbrev pub carriage_return : ℕ
carriage_return = 13

-- `END`
abbrev pub end_mark : Bytes
end_mark = 13 ∷ 10 ∷ []

abbrev pub prepend : ℕ → Option Bytes → Option Bytes
prepend c none = none
prepend c (some s) = some (c ∷ s)

-- `decode` walks to the first '\r'; without one it runs off the string, here `none`.
unfoldable pub decode : Bytes → Option Bytes
decode [] = none
decode (c ∷ s) = if c == carriage_return then some [] else prepend c (decode s)

unfoldable pub encode : Bytes → Bytes
encode msg = msg ++ end_mark

-- `recvmessage(in, out)`: the package and what is left of `in`, or `none` where it returns false
-- and leaves `in` alone.
unfoldable pub recvmessage : Bytes → Option (Bytes × Bytes)
recvmessage s = elim (find end_mark s) [
  | none ↦ none
  | some e ↦ some (substr s 0 (e + length end_mark), drop (e + length end_mark) s)
]
