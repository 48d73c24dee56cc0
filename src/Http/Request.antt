-- ===== src/Http/Request.antt =====
-- http_t/protocol_http.hpp: `httpRequest::parse`, with `util::getoneline` of http_t/util.hpp.
use linux_learning_machine_c.Base.{
  ℕ, suc, ◌==◌, Bool, false, if◌then◌else◌, Option, none, some, [], ◌∷◌, ◌++◌, Bytes, codes, find,
  substr, substr_from, back,
}
use linux_learning_machine_c.Protocol.Frame.{end_mark}
use linux_learning_machine_c.Protocol.Decimal.{is_space}

abbrev pub default_path : Bytes
default_path = codes "./wwwroot"

abbrev pub homepage : Bytes
homepage = codes "index.html"

-- The members of `httpRequest` that `parse` sets.
pub record Request : Type 0 where
  pub method : Bytes
  pub url : Bytes
  pub version : Bytes
  pub path : Bytes
  pub suffix : Bytes

-- `util::getoneline`
unfoldable pub getoneline : Bytes → Bytes → Bytes
getoneline s sep = elim (find sep s) [ none ↦ [] | some pos ↦ substr s 0 pos ]

-- `ss >> word`: white space is skipped, and the word ends before the next white space. At the end of
-- the stream the word stays empty.
abbrev pub skip_spaces : Bytes → Bytes
skip_spaces [] = []
skip_spaces (c ∷ s) = if is_space c then skip_spaces s else c ∷ s

abbrev pub front_word : Bytes → Bytes
front_word [] = []
front_word (c ∷ s) = if is_space c then [] else c ∷ front_word s

abbrev pub behind_word : Bytes → Bytes
behind_word [] = []
behind_word (c ∷ s) = if is_space c then c ∷ s else behind_word s

unfoldable pub next_word : Bytes → Bytes × Bytes
next_word s = (front_word (skip_spaces s), behind_word (skip_spaces s))

-- `s.rfind(c)`; `none` is `npos`.
abbrev pub later : Bool → Option ℕ → Option ℕ
later here none = if here then some 0 else none
later here (some i) = some (suc i)

unfoldable pub rfind : ℕ → Bytes → Option ℕ
rfind c [] = none
rfind c (d ∷ s) = later (d == c) (rfind c s)

abbrev pub is_slash : Option ℕ → Bool
is_slash none = false
is_slash (some c) = c == b'/'

-- The file that a path names: a directory stands for its home page.
unfoldable pub path_of : Bytes → Bytes
path_of url =
    let path = default_path ++ url in if is_slash (back path) then path ++ homepage else path

unfoldable pub suffix_of : Bytes → Bytes
suffix_of path = elim (rfind b'.' path) [ none ↦ codes ".html" | some pos ↦ substr_from path pos ]

-- `parse`
unfoldable pub parse : Bytes → Request
parse inbuffer =
    let line = getoneline inbuffer end_mark in
    let (method, s) = next_word line in
    let (url, s') = next_word s in
    let (version, _) = next_word s' in
    let path = path_of url in
    record { method = method; url = url; version = version; path = path; suffix = suffix_of path }
