-- ===== src/Http/Answer.antt =====
-- http_t/server_tcp.cc: `Get`, with `util::loadsource` and `util::sufftodesc` of http_t/util.hpp, and
-- `server_tcp::serviceIO` of http_t/server_tcp.hpp.
use linux_learning_machine_c.Base.{
  ℕ, zero, suc, ◌==◌, Bool, true, false, if◌then◌else◌, Option, none, some, List, [], ◌∷◌, ◌++◌,
  Bytes, codes, same, length, c_str,
}
use linux_learning_machine_c.Base.Int.{pos}
use linux_learning_machine_c.Protocol.Frame.{end_mark}
use linux_learning_machine_c.Protocol.Decimal.{to_string}
use linux_learning_machine_c.Reactor.Kernel.{Read}
use linux_learning_machine_c.Http.Request.{Request, parse}

abbrev pub notfound : Bytes
notfound = codes "./wwwroot/404.html"

abbrev pub newline : ℕ
newline = 10

-- One line of a stream and what is behind it, by `std::getline`.
abbrev pub line_of : Bytes → Bytes
line_of [] = []
line_of (c ∷ s) = if c == newline then [] else c ∷ line_of s

abbrev pub behind_line : Bytes → Bytes
behind_line [] = []
behind_line (c ∷ s) = if c == newline then s else behind_line s

abbrev pub getline : Bytes → Option (Bytes × Bytes)
getline [] = none
getline (c ∷ s) = some (line_of (c ∷ s), behind_line (c ∷ s))

-- The loop of `loadsource`; each line takes a byte or more off the stream.
unfoldable pub load_lines : ℕ → Bytes → Bytes → Bytes
load_lines zero content out = out
load_lines (suc fuel) content out = elim (getline content) [
  | none ↦ out
  | some (buffer, rest) ↦ load_lines fuel rest (out ++ buffer)
]

-- `loadsource`, on the file of that name: whether it could be opened, and the output.
unfoldable pub loadsource : (Bytes → Option Bytes) → Bytes → Bytes → Bool × Bytes
loadsource files source out = elim (files source) [
  | none ↦ (false, out)
  | some content ↦ (true, load_lines (suc (length content)) content out)
]

-- `sufftodesc`
abbrev pub media_type : Bytes → Bytes
media_type sf =
    if same sf (codes ".html")
    then codes "text/html"
    else if same sf (codes ".jpg")
    then codes "image/jpeg"
    else []

unfoldable pub sufftodesc : Bytes → Bytes
sufftodesc sf = (codes "Content-Type: " ++ media_type sf) ++ end_mark

-- The body of the answer: the file, or the page for a missing one.
unfoldable pub body_of : (Bytes → Option Bytes) → Bytes → Bytes
unfolding loadsource
body_of files path =
    let (found, body) = loadsource files path [] in
    if found then body else (loadsource files notfound body).1

abbrev pub status_line : Bytes
status_line = codes "HTTP/1.1 200 ok" ++ end_mark

abbrev pub cookie_line : Bytes
cookie_line = codes "Set-Cookie: num=123456; Max-Age=120" ++ end_mark

abbrev pub length_line : Bytes → Bytes
length_line body = (codes "Content-Length: " ++ to_string (pos (length body))) ++ end_mark

-- `Get`, on an empty output buffer.
unfoldable pub get : (Bytes → Option Bytes) → Request → Bytes
get files req =
    let body = body_of files req.path in
    status_line
    ++ (sufftodesc req.suffix ++ (cookie_line ++ (length_line body ++ (end_mark ++ body))))

-- `serviceIO`: what the client is sent, over what `read` gives and whether `write` succeeds. A chunk
-- is taken for a whole request.
unfoldable pub service_io : (Bytes → Option Bytes) → List (Read × Bool) → List Bytes
service_io files [] = []
service_io files ((Read.read_error e, w) ∷ rs) = []
service_io files ((Read.closed, w) ∷ rs) = []
service_io files ((Read.got chunk, w) ∷ rs) =
    let rest = service_io files rs in if w then get files (parse (c_str chunk)) ∷ rest else []
