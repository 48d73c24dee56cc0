-- ===== src/Protocol/Message/Json.antt =====
-- IO/reactor/protocol.hpp, the branches without `MYSELF`: fields of a JSON object, by jsoncpp. The
-- library is a parameter with the behaviour that its documentation promises.
use linux_learning_machine_c.Base.{
  ℕ, ◌-◌, ◌%◌, ◌^◌, ◌<◌, ◌≡◌, refl, ◌≢◌, Option, none, some, ◌>>=◌, Bytes, ltb, if◌then◌else◌,
  Lacks, arith,
}
use linux_learning_machine_c.Base.Int.{ℤ, pos, negsuc}
use linux_learning_machine_c.Cal.{
  Equation, Result, ExitCode, normol, devzero, modzero, opwrong, unknown,
}
use linux_learning_machine_c.Protocol.Frame.{carriage_return}
use linux_learning_machine_c.Protocol.Message.Text.{code_number, code_of_number}
use linux_learning_machine_c.Protocol.Message.Codec.{Codec, IsCodec, IsSendable}

-- The keys that the program uses.
pub data Key : Type 0 where
  x y op num exitcode : Key

-- `Json::Value`, `FastWriter::write` and `Reader::parse`. `as_int` is `root[key].asInt()`, which
-- throws (`none`) on a value that is no `int`.
pub record JsonLib : Type 1 where
  pub Value : Type 0
  pub null : Value
  pub put : Value → Key → ℤ → Value
  pub as_int : Value → Key → Option ℤ
  pub write : Value → Bytes
  pub parse : Bytes → Value
  -- A member that was set is read back, and setting it leaves the others alone.
  pub as_int-put_self : (v : Value) (k : Key) (n : ℤ) → as_int (put v k n) k ≡ some n
  pub as_int-put_ne : (v : Value) (k j : Key) (n : ℤ) → j ≢ k → as_int (put v k n) j ≡ as_int v j
  -- Parsing what was written gives the members back.
  pub as_int-parse : (v : Value) (k : Key) → as_int (parse (write v)) k ≡ as_int v k
  -- The writer puts no '\r' anywhere: it escapes it in strings and ends with '\n'.
  pub write_line : (v : Value) → Lacks carriage_return (write v)

-- A `char` promoted to `int`, and an `int` stored in a `char`.
abbrev pub int_of_char : ℕ → ℤ
int_of_char c = if ltb c 128 then pos c else negsuc (255 - c)

abbrev pub char_of_int : ℤ → ℕ
char_of_int (pos n) = n % 2 ^ 8
char_of_int (negsuc n) = 255 - n % 2 ^ 8

-- `(EXITCODE)n`
abbrev pub code_of_int : ℤ → Option ExitCode
code_of_int (pos n) = code_of_number n
code_of_int (negsuc n) = none

char_of_int-int_of_char : (c : ℕ) → c < 2 ^ 8 → char_of_int (int_of_char c) ≡ c
char_of_int-int_of_char c h = ground arith

code_of_number-code_number : (c : ExitCode) → code_of_number (code_number c) ≡ some c
code_of_number-code_number normol = refl
code_of_number-code_number devzero = refl
code_of_number-code_number modzero = refl
code_of_number-code_number opwrong = refl
code_of_number-code_number unknown = refl

module _ (lib : JsonLib) where
  open lib use {
    null, put, as_int, write, parse, as_int-put_self, as_int-put_ne, as_int-parse, write_line,
  }

  unfoldable pub write_request : Equation → Bytes
  write_request e = write (put (put (put null x e.x) y e.y) op (int_of_char e.op))

  unfoldable pub read_request : Bytes → Option Equation
  read_request req =
      let root = parse req in
      as_int root x >>= λ x'. as_int root y >>= λ y'.
      as_int root op >>= λ op'. some (record { x = x'; y = y'; op = char_of_int op' })

  unfoldable pub write_response : Result → Bytes
  write_response r = write (put (put null num r.num) exitcode (pos (code_number r.code)))

  unfoldable pub read_response : Bytes → Option Result
  read_response resp =
      let root = parse resp in
      as_int root num >>= λ num'. as_int root exitcode >>= λ n.
      code_of_int n >>= λ code'. some (record { num = num'; code = code' })

  abbrev pub json_codec : Codec
  json_codec = record {
    write_request = write_request;
    read_request = read_request;
    write_response = write_response;
    read_response = read_response;
  }

  request_back : (e : Equation) → IsSendable e → read_request (write_request e) ≡ some e
  unfolding read_request write_request
  request_back e s = simp (
    as_int-parse,
    as_int-put_self,
    as_int-put_ne _ op y (int_of_char e.op) (λ p. cc),
    as_int-put_ne _ op x (int_of_char e.op) (λ p. cc),
    as_int-put_ne _ y x e.y (λ p. cc),
    char_of_int-int_of_char e.op s.op_byte,
  )

  response_back : (r : Result) → read_response (write_response r) ≡ some r
  unfolding read_response write_response
  response_back r = simp (
    as_int-parse,
    as_int-put_self,
    as_int-put_ne _ exitcode num (pos (code_number r.code)) (λ p. cc),
    code_of_number-code_number r.code,
  )

  -- The JSON translations read back what they write, and write no '\r'.
  pub json_codec-IsCodec : IsCodec json_codec
  unfolding write_request write_response
  json_codec-IsCodec = record {
    request_back = request_back;
    request_line = λ e s. write_line _;
    response_back = λ r h. response_back r;
    response_line = λ r. write_line _;
  }
