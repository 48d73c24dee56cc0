-- ===== src/Dict.antt =====
-- IO/reactor/dict.hpp: `dict`, and the callbacks that answer with it.
pub mod Lookup
use linux_learning_machine_c.Base.{
  ℕ, zero, suc, ◌+◌, ◌==◌, if◌then◌else◌, Option, none, some, List, [], ◌∷◌, ◌++◌, Bytes, codes,
  same, find, substr, substr_from,
}

-- `_dict`, the newest entry first: `_dict[org] = tran` hides an older one of the same word.
abbrev pub Entries : Type 0
Entries = List (Bytes × Bytes)

-- One line of the file. Without a blank `pos` is `npos`: the word is the whole line, and `pos++` makes
-- 0 of it, so the translation is the whole line, too.
unfoldable pub entry_of : Bytes → Bytes × Bytes
entry_of buffer = elim (find (b' ' ∷ []) buffer) [
  | none ↦ (buffer, substr_from buffer 0)
  | some pos ↦ (substr buffer 0 pos, substr_from buffer (suc pos))
]

-- `load`, over the lines that `getline` gives.
unfoldable pub load : List Bytes → Entries → Entries
load [] entries = entries
load (buffer ∷ lines) entries = load lines (entry_of buffer ∷ entries)

abbrev pub not_found : Bytes
not_found = codes "Not Found!"

-- `find`
unfoldable pub find_word : Bytes → Entries → Bytes
find_word index [] = not_found
find_word index ((org, tran) ∷ entries) = if same org index then tran else find_word index entries

-- `pop_back`; on the empty string it is undefined.
abbrev pub pop_back : Bytes → Option Bytes
pop_back [] = none
pop_back (c ∷ []) = some []
pop_back (c ∷ d ∷ s) = elim (pop_back (d ∷ s)) [ none ↦ none | some t ↦ some (c ∷ t) ]

-- `dict_handle` of IO/reactor/test.cc, as the callback of the server: what is left of the input, and
-- the output.
unfoldable pub dict_handle : Entries → Bytes → Bytes → Option (Bytes × Bytes)
dict_handle entries inbuf outbuf = elim (pop_back inbuf) [
  | none ↦ none
  | some once ↦ elim (pop_back once) [ none ↦ none | some word ↦ some ([], find_word word entries) ]
]

-- `handle_request` of IO/select_server/test.cc.
unfoldable pub handle_request : Entries → Bytes → Option Bytes
handle_request entries req = elim (pop_back req) [
  | none ↦ none
  | some word ↦ some (find_word word entries)
]
