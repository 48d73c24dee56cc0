-- ===== src/Protocol/FlatJson.antt =====
-- A library that keeps what `JsonLib` promises of jsoncpp: the JSON branches of
-- IO/reactor/protocol.hpp can be run with it.
use linux_learning_machine_c.Base.{
  ℕ, ◌+◌, ◌-◌, ◌≡◌, refl, ap, ◌≢◌, Option, some, List, [], ◌∷◌, Bytes, ◌==◌, if◌then◌else◌, arith,
  Lacks,
}
use linux_learning_machine_c.Base.Int.{ℤ, pos, negsuc}
use linux_learning_machine_c.Protocol.Frame.{carriage_return}
use linux_learning_machine_c.Protocol.Message.Json.{Key, x, y, op, num, exitcode, JsonLib}

-- An object is the list of its members, newest first, and is written with three numbers for each.
abbrev pub Members : Type 0
Members = List (Key × ℤ)

abbrev key_number : Key → ℕ
key_number x = 20
key_number y = 21
key_number op = 22
key_number num = 23
key_number exitcode = 24

abbrev key_of_number : ℕ → Key
key_of_number n =
    if n == 20
    then x
    else if n == 21
    then y
    else if n == 22
    then op
    else if n == 23
    then num
    else exitcode

abbrev pub as_int : Members → Key → Option ℤ
as_int [] k = some (pos 0)
as_int ((j, n) ∷ v) k = if key_number j == key_number k then some n else as_int v k

abbrev pub write : Members → Bytes
write [] = []
write ((k, pos n) ∷ v) = key_number k ∷ 30 ∷ (n + 20) ∷ write v
write ((k, negsuc n) ∷ v) = key_number k ∷ 31 ∷ (n + 20) ∷ write v

abbrev pub parse : Bytes → Members
parse (k ∷ sign ∷ n ∷ s) =
    (key_of_number k, if sign == 30 then pos (n - 20) else negsuc (n - 20)) ∷ parse s
parse _ = []

key_of_number-key_number : (k : Key) → key_of_number (key_number k) ≡ k
key_of_number-key_number x = refl
key_of_number-key_number y = refl
key_of_number-key_number op = refl
key_of_number-key_number num = refl
key_of_number-key_number exitcode = refl

pub parse-write : (v : Members) → parse (write v) ≡ v
parse-write [] = refl
parse-write ((k, pos n) ∷ v) = ground (arith, key_of_number-key_number k, parse-write v)
parse-write ((k, negsuc n) ∷ v) = ground (arith, key_of_number-key_number k, parse-write v)

pub as_int-put_self : (v : Members) (k : Key) (n : ℤ) → as_int ((k, n) ∷ v) k ≡ some n
as_int-put_self v k n = ground arith

key_number-injective : (j k : Key) → key_number j ≡ key_number k → j ≡ k
key_number-injective j k e =
    ground (arith, e, ap key_of_number e, key_of_number-key_number j, key_of_number-key_number k)

pub as_int-put_ne : (v : Members) (k j : Key) (n : ℤ) → j ≢ k → as_int ((k, n) ∷ v) j ≡ as_int v j
as_int-put_ne v k j n ne = ground (arith, key_number-injective k j)

key_line : (k : Key) → key_number k ≢ carriage_return
key_line k = ground arith

pub write_line : (v : Members) → Lacks carriage_return (write v)
write_line [] = tt
write_line ((k, pos n) ∷ v) = (key_line k, (omega arith, (omega arith, write_line v)))
write_line ((k, negsuc n) ∷ v) = (key_line k, (omega arith, (omega arith, write_line v)))

abbrev pub flat_lib : JsonLib
flat_lib = record {
  Value = Members;
  null = [];
  put = λ v k n. (k, n) ∷ v;
  as_int = as_int;
  write = write;
  parse = parse;
  as_int-put_self = as_int-put_self;
  as_int-put_ne = as_int-put_ne;
  as_int-parse = λ v k. ap (λ m. as_int m k) (parse-write v);
  write_line = write_line;
}
