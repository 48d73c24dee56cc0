-- ===== src/Protocol/Frame/Cut.antt =====
-- What `recvmessage` and `decode` of IO/reactor/protocol.hpp cut off, for any input.
use linux_learning_machine_c.Base.{
  ℕ, zero, suc, ◌+◌, ◌-◌, ◌≤◌, ◌≡◌, refl, ap, inl, inr, some, [], ◌∷◌, ◌++◌, append_assoc, ◌==◌,
  Bytes, find, take, length, arith, Lacks, Bool-cases, Option-cases, take-append-drop, length-drop,
  take-append, drop-append, take-length, drop-length, length-append,
}
use linux_learning_machine_c.Protocol.Frame.{end_mark, carriage_return, decode, encode, recvmessage}

-- A found position leaves room for the mark.
find-end_le : (s : Bytes) (k : ℕ) → find end_mark s ≡ some k → k + 2 ≤ length s
unfolding find
find-end_le [] k h = cc
find-end_le (c ∷ []) k h = ground arith
find-end_le (c ∷ d ∷ s) k h = ground (arith, find-end_le (d ∷ s) (k - 1))

-- More input behind it moves no mark that is already there.
find-append : (s t : Bytes) (k : ℕ) → find end_mark s ≡ some k → find end_mark (s ++ t) ≡ some k
unfolding find
find-append [] t k h = cc
find-append (c ∷ []) t k h = ground arith
find-append (c ∷ d ∷ s) t k h = ground (arith, find-append (d ∷ s) t (k - 1))

-- The mark stands where it is found.
find-end_at :
    (s : Bytes) (k : ℕ) → find end_mark s ≡ some k → take (suc (suc k)) s ≡ take k s ++ end_mark
unfolding find
find-end_at [] k h = cc
find-end_at (c ∷ []) k h = ground arith
find-end_at (c ∷ d ∷ s) zero h = ground arith
find-end_at (c ∷ d ∷ s) (suc k) h = ground (arith, find-end_at (d ∷ s) k)

-- A text without '\r' holds no mark before its own end.
find-encode :
    (m rest : Bytes)
    → Lacks carriage_return m
    → find end_mark (m ++ (end_mark ++ rest)) ≡ some (length m)
unfolding find
find-encode [] rest h = refl
find-encode (c ∷ m) rest h = ground (arith, find-encode m rest h.1)

-- A cut splits the input: nothing is lost, and something is taken.
pub recvmessage-split :
    (s p r : Bytes) → recvmessage s ≡ some (p, r) → (p ++ r ≡ s) × (length r + 2 ≤ length s)
unfolding recvmessage
recvmessage-split s p r h = elim (Option-cases (find end_mark s)) [
  | inl e ↦ ground (arith, e)
  | inr (k, e) ↦
      ground (arith, e, take-append-drop (k + 2) s, length-drop (k + 2) s, find-end_le s k e)
]

-- A cut stays what it is when more input arrives behind it.
pub recvmessage-append :
    (s t p r : Bytes) → recvmessage s ≡ some (p, r) → recvmessage (s ++ t) ≡ some (p, r ++ t)
unfolding recvmessage
recvmessage-append s t p r h = elim (Option-cases (find end_mark s)) [
  | inl e ↦ ground (arith, e)
  | inr (k, e) ↦ ground (
    arith,
    e,
    find-append s t k e,
    find-end_le s k e,
    take-append (k + 2) s t,
    drop-append (k + 2) s t,
  )
]

-- An encoded message is cut off whole.
pub recvmessage-encode :
    (m rest : Bytes)
    → Lacks carriage_return m
    → recvmessage (encode m ++ rest) ≡ some (encode m, rest)
unfolding recvmessage encode
recvmessage-encode m rest h = ground (
  arith,
  append_assoc m end_mark rest,
  find-encode m rest h,
  length-append m end_mark,
  take-length (m ++ end_mark) rest,
  drop-length (m ++ end_mark) rest,
)

pub decode-encode : (m : Bytes) → Lacks carriage_return m → decode (encode m) ≡ some m
unfolding decode encode
decode-encode [] h = refl
decode-encode (c ∷ m) h = ground (arith, decode-encode m h.1)

decode-end : (b : Bytes) → (m : Bytes) × (decode (b ++ end_mark) ≡ some m)
unfolding decode
decode-end [] = ([], refl)
decode-end (c ∷ b) = elim (Bool-cases (c == carriage_return)) [
  | inl e ↦ ([], rw e)
  | inr e ↦ let (m, h) = decode-end b in (c ∷ m, rw (e, h))
]

recvmessage-end : (s p r : Bytes) → recvmessage s ≡ some (p, r) → (b : Bytes) × (p ≡ b ++ end_mark)
unfolding recvmessage
recvmessage-end s p r h = elim (Option-cases (find end_mark s)) [
  | inl e ↦ ground (arith, e)
  | inr (k, e) ↦ (take k s, ground (arith, e, find-end_at s k e))
]

-- `decode` never runs off a package that `recvmessage` has cut.
pub decode-recvmessage :
    (s p r : Bytes) → recvmessage s ≡ some (p, r) → (m : Bytes) × (decode p ≡ some m)
decode-recvmessage s p r h =
    let (b, e) = recvmessage-end s p r h in let (m, d) = decode-end b in (m, cc (ap decode e, d))
