-- ===== src/Udp/Tests.antt =====
-- The shell server of udp_t/shell_udp with a shell that knows one command.
use linux_learning_machine_c.Base.{
  ◌≡◌, refl, Bool, true, false, if◌then◌else◌, Option, some, List, [], ◌∷◌, Bytes, codes, same,
  Lacks, All, map, arith,
}
use linux_learning_machine_c.Udp.{Reply, waiting, exited, start, shell_server}
use linux_learning_machine_c.Udp.Replies.{Command, IsShort, sent, shell_replies}

abbrev listing : Bytes
listing = codes "a\nb"

abbrev output_if : Bool → Bytes
output_if b = if b then listing else codes "?"

abbrev output : Bytes → Bytes
output cmd = output_if (same cmd (codes "ls"))

abbrev run_command : Bytes → Option Bytes
run_command cmd = some (output cmd)

output_if-Lacks : (b : Bool) → Lacks 0 (output_if b)
output_if-Lacks true = (omega arith, (omega arith, (omega arith, tt)))
output_if-Lacks false = (omega arith, tt)

abbrev ls : Command
ls = record { text = codes "ls"; ip = codes "10.0.0.1"; port = 1 }

abbrev who : Command
who = record { text = codes "who"; ip = codes "10.0.0.2"; port = 2 }

-- The answers to the two commands.
abbrev both : List Reply
both =
    record { text = listing; to = some (codes "10.0.0.1", 1) }
    ∷ record { text = codes "?"; to = some (codes "10.0.0.2", 2) }
    ∷ []

commands-IsShort : All IsShort (ls ∷ who ∷ [])
commands-IsShort = ((omega arith, omega arith), ((omega arith, omega arith), tt))

shell_replies_example :
    (start (shell_server run_command) (map sent (ls ∷ who ∷ [])) [] ≡ (both, waiting))
    × (start (shell_server run_command) (map sent (ls ∷ who ∷ [])) (true ∷ false ∷ [])
        ≡ (both, exited))
shell_replies_example =
    shell_replies run_command output (λ cmd. (refl, output_if-Lacks (same cmd (codes "ls"))))
      (ls ∷ who ∷ []) 1 [] commands-IsShort (omega arith)
