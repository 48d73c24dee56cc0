-- ===== src/Http/Framing.antt =====
-- http_t: what a client reads of the answer, and what the answer holds of the file.
use linux_learning_machine_c.Base.{
  ℕ, ◌≡◌, ◌≢◌, refl, sym, ◌∙◌, ap, true, Option, some, ◌>>=◌, [], ◌++◌, append-nil, Bytes, codes,
  length, drop, Lacks, All-append, arith,
}
use linux_learning_machine_c.Base.Int.{ℤ, pos, fits}
use linux_learning_machine_c.Protocol.Frame.{end_mark, carriage_return, encode, decode, recvmessage}
use linux_learning_machine_c.Protocol.Frame.Cut.{recvmessage-encode, decode-encode}
use linux_learning_machine_c.Protocol.Decimal.{
  to_string, stoi, stoi-to_string, to_string-IsNumeral, Lacks-of_IsNumeral,
}
use linux_learning_machine_c.Http.Request.{Request}
use linux_learning_machine_c.Http.Answer.{
  media_type, sufftodesc, body_of, cookie_line, length_line, get,
}

-- A client's view: one line without its end, and the rest.
abbrev pub read_line : Bytes → Option (Bytes × Bytes)
read_line s = recvmessage s >>= λ (l, rest). decode l >>= λ m. some (m, rest)

-- The rest of an answer, behind each of its lines: the type line, the number of the length line, and
-- what stands behind the empty line.
abbrev behind_empty : Bytes → Bytes → Bytes × Bytes → Option (Bytes × ℤ × Bytes)
behind_empty type size (empty, body) =
    stoi (drop (length (codes "Content-Length: ")) size) >>= λ n. some (type, n, body)

abbrev behind_length : Bytes → Bytes × Bytes → Option (Bytes × ℤ × Bytes)
behind_length type (size, s) = read_line s >>= behind_empty type size

abbrev behind_cookie : Bytes → Bytes × Bytes → Option (Bytes × ℤ × Bytes)
behind_cookie type (cookie, s) = read_line s >>= behind_length type

abbrev behind_type : Bytes × Bytes → Option (Bytes × ℤ × Bytes)
behind_type (type, s) = read_line s >>= behind_cookie type

abbrev behind_status : Bytes × Bytes → Option (Bytes × ℤ × Bytes)
behind_status (status, s) = read_line s >>= behind_type

abbrev pub read_answer : Bytes → Option (Bytes × ℤ × Bytes)
read_answer s = read_line s >>= behind_status

read_line-encode :
    (m rest : Bytes)
    → Lacks carriage_return m
    → read_line ((m ++ end_mark) ++ rest) ≡ some (m, rest)
unfolding encode
read_line-encode m rest h = rw (recvmessage-encode m rest h) (rw (decode-encode m h) refl)

media_type-line : (sf : Bytes) → Lacks carriage_return (codes "Content-Type: " ++ media_type sf)
media_type-line sf =
    All-append (λ c. c ≢ carriage_return) (codes "Content-Type: ") (media_type sf) (ground arith)
      (ground arith)

length-line : (n : ℕ) → Lacks carriage_return (codes "Content-Length: " ++ to_string (pos n))
length-line n =
    All-append (λ c. c ≢ carriage_return) (codes "Content-Length: ") (to_string (pos n))
      (ground arith)
      (Lacks-of_IsNumeral carriage_return (omega arith) (to_string (pos n))
        (to_string-IsNumeral (pos n)))

-- One line taken off, in a chain that goes on with it.
read_line-then :
    {B : Type 0} (m rest : Bytes) (k : Bytes × Bytes → Option B)
    → Lacks carriage_return m
    → (read_line ((m ++ end_mark) ++ rest) >>= k) ≡ k (m, rest)
read_line-then m rest k h = ap (λ o. o >>= k) (read_line-encode m rest h)

-- The number of the length line, read back.
stoi-length : (n : ℕ) → fits (pos n) ≡ true → stoi (to_string (pos n)) ≡ some (pos n)
stoi-length n h = ap stoi (sym (append-nil (to_string (pos n)))) ∙ stoi-to_string (pos n) [] h tt

-- A client that reads the answer of `Get` line by line finds the type of the suffix, a length line
-- that states exactly how many bytes follow the empty line, and the body behind it.
pub read_answer-get :
    (files : Bytes → Option Bytes) (req : Request)
    → fits (pos (length (body_of files req.path))) ≡ true
    → read_answer (get files req)
      ≡ some (
        codes "Content-Type: " ++ media_type req.suffix,
        pos (length (body_of files req.path)),
        body_of files req.path,
      )
unfolding get sufftodesc
read_answer-get files req small =
    let body = body_of files req.path in
    let s4 = end_mark ++ body in
    let s3 = length_line body ++ s4 in
    let s2 = cookie_line ++ s3 in
    let s1 = sufftodesc req.suffix ++ s2 in
    let type = codes "Content-Type: " ++ media_type req.suffix in
    let size = codes "Content-Length: " ++ to_string (pos (length body)) in
    read_line-then (codes "HTTP/1.1 200 ok") s1 behind_status (ground arith)
    ∙ read_line-then type s2 behind_type (media_type-line req.suffix)
    ∙ read_line-then (codes "Set-Cookie: num=123456; Max-Age=120") s3 (behind_cookie type)
        (ground arith)
    ∙ read_line-then size s4 (behind_length type) (length-line (length body))
    ∙ read_line-then [] body (behind_empty type size) tt
    ∙ ap (λ o. o >>= λ n. some (type, n, body)) (stoi-length (length body) small)
