-- ===== src/Protocol/Message/Text.antt =====
-- IO/reactor/protocol.hpp, the `#ifdef MYSELF` branches: fields in decimal, with blanks between.
use linux_learning_machine_c.Base.{
  ℕ, zero, suc, ◌+◌, ◌-◌, ◌≡◌, refl, sym, ap, ◌∙◌, Option, none, some, ◌>>=◌, [], ◌∷◌, ◌++◌,
  append-nil, Bytes, find, substr_from, back, length, Lacks, All-append, take-length,
  drop-suc-length, find_char, back_append, arith, take, true,
}
use linux_learning_machine_c.Base.Int.{ℤ, pos, fits}
use linux_learning_machine_c.Cal.{
  Equation, Result, ExitCode, normol, devzero, modzero, opwrong, unknown,
}
use linux_learning_machine_c.Protocol.Frame.{sep, carriage_return}
use linux_learning_machine_c.Protocol.Message.Codec.{Codec, IsCodec, IsSendable}
use linux_learning_machine_c.Protocol.Decimal.{
  to_string, stoi, digits, stoi-to_string, to_string-IsNumeral, Lacks-of_IsNumeral,
}

-- `request::serialization`
unfoldable pub write_request : Equation → Bytes
write_request e = to_string e.x ++ sep ∷ (to_string e.y ++ sep ∷ e.op ∷ [])

-- `s.substr(0, pos)`, where `npos` takes all.
abbrev pub up_to : Option ℕ → Bytes → Bytes
up_to none s = s
up_to (some k) s = take k s

-- `pos + 1`, where `npos` wraps to 0.
abbrev pub behind : Option ℕ → ℕ
behind none = 0
behind (some k) = suc k

-- `request::deserialization`; `none` is an exception of `stoi`.
unfoldable pub read_request : Bytes → Option Equation
read_request req =
    let pos1 = find (sep ∷ []) req in
    let tail = substr_from req (behind pos1) in
    stoi (up_to pos1 req) >>= λ x. stoi (up_to (find (sep ∷ []) tail) tail) >>= λ y.
    back req >>= λ op. some (record { x = x; y = y; op = op })

-- `(int)_r._code`
abbrev pub code_number : ExitCode → ℕ
code_number normol = 0
code_number devzero = 1
code_number modzero = 2
code_number opwrong = 3
code_number unknown = 4

-- `(EXITCODE)n`; a number that no enumerator has is left out.
abbrev pub code_of_number : ℕ → Option ExitCode
code_of_number zero = some normol
code_of_number (suc zero) = some devzero
code_of_number (suc (suc zero)) = some modzero
code_of_number (suc (suc (suc zero))) = some opwrong
code_of_number (suc (suc (suc (suc zero)))) = some unknown
code_of_number (suc (suc (suc (suc (suc n))))) = none

-- `response::serialization`
unfoldable pub write_response : Result → Bytes
write_response r = to_string r.num ++ sep ∷ to_string (pos (code_number r.code))

-- `(EXITCODE)(resp.back() - '0')`
abbrev pub code_of_digit : ℕ → Option ExitCode
code_of_digit c = elim (Prim.Native.Nat.compare c b'0') [
  | Prim.Native.Nat.Ordering.lt ↦ none
  | _ ↦ code_of_number (c - b'0')
]

-- `response::deserialization`
unfoldable pub read_response : Bytes → Option Result
read_response resp = back resp >>= λ c. code_of_digit c >>= λ code.
    stoi (up_to (find (sep ∷ []) resp) resp) >>= λ num. some (record { num = num; code = code })

find-sep :
    (z : ℤ) (rest : Bytes)
    → find (sep ∷ []) (to_string z ++ sep ∷ rest) ≡ some (length (to_string z))
find-sep z rest =
    find_char sep (to_string z) rest
      (Lacks-of_IsNumeral sep (omega arith) (to_string z) (to_string-IsNumeral z))

stoi-to_string_alone : (z : ℤ) → fits z ≡ true → stoi (to_string z) ≡ some z
stoi-to_string_alone z fit = ap stoi (sym (append-nil (to_string z))) ∙ stoi-to_string z [] fit tt

stoi-up_to :
    (z : ℤ) (rest : Bytes)
    → fits z ≡ true
    → let s = to_string z ++ sep ∷ rest in stoi (up_to (find (sep ∷ []) s) s) ≡ some z
stoi-up_to z rest fit =
    rw (find-sep z rest, take-length (to_string z) (sep ∷ rest)) (stoi-to_string_alone z fit)

substr_from-behind :
    (z : ℤ) (rest : Bytes)
    → let s = to_string z ++ sep ∷ rest in substr_from s (behind (find (sep ∷ []) s)) ≡ rest
substr_from-behind z rest = rw (find-sep z rest) (drop-suc-length (to_string z) sep rest)

-- A request whose numbers are `int`s is read back as it was written, whatever its operator byte.
pub read_request-write_request :
    (e : Equation) → fits e.x ≡ true → fits e.y ≡ true → read_request (write_request e) ≡ some e
unfolding read_request write_request
read_request-write_request e hx hy =
    let rest = to_string e.y ++ sep ∷ e.op ∷ [] in
    rw (
      stoi-up_to e.x rest hx,
      substr_from-behind e.x rest,
      stoi-up_to e.y (e.op ∷ []) hy,
      back_append (to_string e.x) sep rest,
      back_append (sep ∷ to_string e.y) sep (e.op ∷ []),
    )

code_of_digit-code_number : (c : ExitCode) → code_of_digit (b'0' + code_number c) ≡ some c
code_of_digit-code_number normol = refl
code_of_digit-code_number devzero = refl
code_of_digit-code_number modzero = refl
code_of_digit-code_number opwrong = refl
code_of_digit-code_number unknown = refl

to_string-code : (c : ExitCode) → to_string (pos (code_number c)) ≡ (b'0' + code_number c) ∷ []
unfolding to_string digits
to_string-code normol = refl
to_string-code devzero = refl
to_string-code modzero = refl
to_string-code opwrong = refl
to_string-code unknown = refl

-- A response whose number is an `int` is read back as it was written, whatever its code.
pub read_response-write_response :
    (r : Result) → fits r.num ≡ true → read_response (write_response r) ≡ some r
unfolding read_response write_response
read_response-write_response r h =
    let digit = (b'0' + code_number r.code) ∷ [] in
    rw (
      to_string-code r.code,
      back_append (to_string r.num) sep digit,
      code_of_digit-code_number r.code,
      stoi-up_to r.num digit h,
    )

to_string-line : (z : ℤ) → Lacks carriage_return (to_string z)
to_string-line z =
    Lacks-of_IsNumeral carriage_return (omega arith) (to_string z) (to_string-IsNumeral z)

write_request-line : (e : Equation) → IsSendable e → Lacks carriage_return (write_request e)
unfolding write_request
write_request-line e s = All-append _ (to_string e.x) _ (to_string-line e.x) (
  omega arith,
  All-append _ (to_string e.y) _ (to_string-line e.y) (omega arith, (s.op_line, tt)),
)

write_response-line : (r : Result) → Lacks carriage_return (write_response r)
unfolding write_response
write_response-line r =
    All-append _ (to_string r.num) _ (to_string-line r.num) (omega arith, to_string-line _)

abbrev pub text_codec : Codec
text_codec = record {
  write_request = write_request;
  read_request = read_request;
  write_response = write_response;
  read_response = read_response;
}

-- The text translations read back what they write, and write no '\r'.
pub text_codec-IsCodec : IsCodec text_codec
text_codec-IsCodec = record {
  request_back = λ e s. read_request-write_request e s.x_fits s.y_fits;
  request_line = write_request-line;
  response_back = read_response-write_response;
  response_line = write_response-line;
}
