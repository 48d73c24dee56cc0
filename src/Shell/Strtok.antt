-- ===== src/Shell/Strtok.antt =====
-- pipe_t/MyShell/myshell.c: `strtok` with the delimiter " ", on the command line. It keeps where the
-- next token is looked for.
use linux_learning_machine_c.Base.{
  ℕ, suc, ◌+◌, ◌==◌, ◌||◌, if◌then◌else◌, Option, none, some, [], ◌∷◌, get_or, set, drop, Bytes,
}

pub record Tokens : Type 0 where
  pub buffer : Bytes
  pub saved : ℕ

-- `strspn(s, " ")`
abbrev pub strspn : Bytes → ℕ
strspn [] = 0
strspn (c ∷ s) = if c == 32 then suc (strspn s) else 0

-- `strcspn(s, " ")`
abbrev pub strcspn : Bytes → ℕ
strcspn [] = 0
strcspn (c ∷ s) = if c == 32 || c == 0 then 0 else suc (strcspn s)

-- A call that looks from `t.saved` on: the token, and the state behind it.
unfoldable pub strtok_next : Tokens → Option ℕ × Tokens
strtok_next t =
    let a = t.saved + strspn (drop t.saved t.buffer) in
    let b = a + strcspn (drop a t.buffer) in
    if get_or t.buffer a 0 == 0
    then (none, record t { saved = a })
    else if get_or t.buffer b 0 == 0
    then (some a, record t { saved = b })
    else (some a, record { buffer = set t.buffer b 0; saved = suc b })

-- A call with a pointer.
unfoldable pub strtok_first : ℕ → Bytes → Option ℕ × Tokens
unfolding strtok_next
strtok_first coms s = strtok_next (record { buffer = s; saved = coms })
