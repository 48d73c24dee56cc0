-- ===== src/Udp/Replies.antt =====
-- udp_t/shell_udp and udp_t/dict_udp: what the server sends, and to whom.
use linux_learning_machine_c.Base.{
  ℕ, zero, suc, ◌<◌, ◌≤◌, Bool, true, false, ◌≡◌, refl, sym, subst, ap, ◌∙◌, Option, some, List, [],
  ◌∷◌, ◌++◌, append-nil, append_assoc, map, replicate, take, Bytes, length, length-append, c_str,
  c_str-eq_self, Lacks, All, arith,
}
use linux_learning_machine_c.Udp.{
  Received, datagram, Reply, waiting, exited, Callback, gnum, reply, send_on, start, fgets,
  read_lines, shell_server,
}

-- `fgets` cuts its input, and takes a byte at least.
fgets-append : (n : ℕ) (s : Bytes) → (fgets n s).0 ++ (fgets n s).1 ≡ s
unfolding fgets
fgets-append n [] = refl
fgets-append zero (c ∷ s) = refl
fgets-append (suc n) (c ∷ s) = ground (arith, fgets-append n s)

fgets-shorter : (n c : ℕ) (s : Bytes) → length (fgets (suc n) (c ∷ s)).1 ≤ length s
unfolding fgets
fgets-shorter n c s =
    ground (arith, ap length (fgets-append n s), length-append (fgets n s).0 (fgets n s).1)

Lacks-parts : (b : ℕ) (xs ys : Bytes) → Lacks b (xs ++ ys) → Lacks b xs × Lacks b ys
Lacks-parts b [] ys h = (tt, h)
Lacks-parts b (x ∷ xs) ys h = let (p, q) = Lacks-parts b xs ys h.1 in ((h.0, p), q)

-- The loop puts all of the output behind the text.
read_lines-append :
    (fuel : ℕ) (out text : Bytes)
    → length out < fuel
    → Lacks 0 out
    → read_lines fuel out text ≡ text ++ out
unfolding read_lines
read_lines-append zero out text h z = absurd (omega (arith, h))
read_lines-append (suc fuel) [] text h z = sym (append-nil text)
read_lines-append (suc fuel) (c ∷ s) text h z =
    let line = (fgets 1023 (c ∷ s)).0 in
    let rest = (fgets 1023 (c ∷ s)).1 in
    let whole : line ++ rest ≡ c ∷ s = fgets-append 1023 (c ∷ s) in
    let parts : Lacks 0 line × Lacks 0 rest =
      Lacks-parts 0 line rest (subst (Lacks 0) (sym whole) z) in
    read_lines-append fuel rest (text ++ c_str line) (omega (arith, h, fgets-shorter 1022 c s))
      parts.1
    ∙ ap (λ l. (text ++ l) ++ rest) (c_str-eq_self line parts.0)
    ∙ append_assoc text line rest
    ∙ ap (λ l. text ++ l) whole

module _ {ℓ} {D : Type ℓ} (callback : Callback) (event : D → Received) (answer : D → Reply) where
  abbrev IsAnswered : D → Type 0
  IsAnswered d = reply callback (event d) ≡ some (answer d)

  start-map :
      (ds : List D)
      → All IsAnswered ds
      → start callback (map event ds) [] ≡ (map answer ds, waiting)
  unfolding start
  start-map [] h = refl
  start-map (d ∷ ds) h =
      ap (λ o. send_on o true (start callback (map event ds) [])) h.0
      ∙ ap (send_on (some (answer d)) true) (start-map ds h.1)

  start-exits :
      (ds : List D) (k : ℕ) (ws : List Bool)
      → k < length ds
      → All IsAnswered ds
      → start callback (map event ds) (replicate k true ++ false ∷ ws)
        ≡ (map answer (take (suc k) ds), exited)
  unfolding start
  start-exits [] k ws l h = absurd (omega (arith, l))
  start-exits (d ∷ ds) zero ws l h =
      ap (λ o. send_on o false (start callback (map event ds) ws)) h.0
  start-exits (d ∷ ds) (suc k) ws l h =
      ap (λ o. send_on o true (start callback (map event ds) (replicate k true ++ false ∷ ws))) h.0
      ∙ ap (send_on (some (answer d)) true) (start-exits ds k ws (omega (arith, l)) h.1)

-- A command that a client sends.
pub record Command : Type 0 where
  pub text : Bytes
  pub ip : Bytes
  pub port : ℕ

abbrev pub sent : Command → Received
sent c = datagram c.text c.ip c.port

abbrev pub IsShort : Command → Type 0
IsShort c = (0 < length c.text) × (length c.text < gnum)

-- The answer with all that the command prints.
abbrev pub output_to : (Bytes → Bytes) → Command → Reply
output_to output c = record { text = output (c_str c.text); to = some (c.ip, c.port) }

module _ (popen : Bytes → Option Bytes) (output : Bytes → Bytes)
    (prints : (cmd : Bytes) → (popen cmd ≡ some (output cmd)) × Lacks 0 (output cmd)) where
  shell_server-output :
      (cmd ip : Bytes) (port : ℕ) → shell_server popen cmd ip port ≡ some (output cmd)
  unfolding shell_server
  shell_server-output cmd ip port =
      rw ((prints cmd).0, shell_server)
        (ap some (
          read_lines-append (suc (length (output cmd))) (output cmd) [] (omega arith)
            (prints cmd).1))

  reply-output :
      (text ip : Bytes) (port : ℕ)
      → 0 < length text
      → length text < gnum
      → reply (shell_server popen) (datagram text ip port)
        ≡ some (record { text = output (c_str text); to = some (ip, port) })
  reply-output [] ip port h l = absurd (omega (arith, h))
  reply-output (c ∷ s) ip port h l = ground (arith, l, shell_server-output (c_str (c ∷ s)) ip port)

  replies-output :
      (cs : List Command)
      → All IsShort cs
      → All (IsAnswered (shell_server popen) sent (output_to output)) cs
  replies-output [] h = tt
  replies-output (c ∷ cs) h = (reply-output c.text c.ip c.port h.0.0 h.0.1, replies-output cs h.1)

-- Where each command can be run and prints no zero byte, and each client sends a command of at least
-- one and fewer than 1024 bytes: while `sendto` succeeds, the shell server sends each client all that
-- its command prints, in order; where the one behind `k` others fails it is the last, and the server
-- has exited.
pub shell_replies :
    (popen : Bytes → Option Bytes) (output : Bytes → Bytes)
    → ((cmd : Bytes) → (popen cmd ≡ some (output cmd)) × Lacks 0 (output cmd))
    → (cs : List Command) (k : ℕ) (ws : List Bool) → All IsShort cs
    → k < length cs
    → (start (shell_server popen) (map sent cs) [] ≡ (map (output_to output) cs, waiting))
      × (start (shell_server popen) (map sent cs) (replicate k true ++ false ∷ ws)
          ≡ (map (output_to output) (take (suc k) cs), exited))
shell_replies popen output prints cs k ws h l =
    let all = replies-output popen output prints cs h in
    (
      start-map (shell_server popen) sent (output_to output) cs all,
      start-exits (shell_server popen) sent (output_to output) cs k ws l all,
    )
