-- ===== src/Http/Tests.antt =====
-- The file server of http_t on concrete requests.
use mathlib.Core.Path.{◌≡◌, refl}
use linux_learning_machine_c.Base.{
  true, if◌then◌else◌, Option, none, some, ◌++◌, Bytes, codes, same, find, length,
}
use linux_learning_machine_c.Base.Int.{pos, fits}
use linux_learning_machine_c.Http.Request.{
  Request, parse, getoneline, next_word, path_of, suffix_of, rfind,
}
use linux_learning_machine_c.Http.Answer.{get, loadsource, load_lines, body_of, media_type}
use linux_learning_machine_c.Http.Framing.{read_answer, read_answer-get}

abbrev disk : Bytes → Option Bytes
disk name = if same name (codes "./wwwroot/index.html") then some (codes "<p>\nhi") else none

-- The home page is asked for.
abbrev home : Request
home = record {
  method = codes "GET";
  url = codes "/";
  version = codes "HTTP/1.1";
  path = codes "./wwwroot/index.html";
  suffix = codes ".html";
}

parse_runs : parse (codes "GET / HTTP/1.1\r\nHost: x\r\n\r\n") ≡ home
unfolding parse getoneline next_word path_of suffix_of rfind find
parse_runs = refl

body_runs : fits (pos (length (body_of disk home.path))) ≡ true
unfolding body_of loadsource load_lines
body_runs = refl

read_answer-get_example :
    read_answer (get disk home)
    ≡ some (
      codes "Content-Type: " ++ media_type home.suffix,
      pos (length (body_of disk home.path)),
      body_of disk home.path,
    )
read_answer-get_example = read_answer-get disk home body_runs
