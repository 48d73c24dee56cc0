-- ===== src/Shell/Tests.antt =====
-- pipe_t/MyShell/myshell.c: the shell on concrete lines.
use linux_learning_machine_c.Base.{
  ◌≡◌, inl, refl, ◌∷◌, [], ◌++◌, List, Option, none, some, map, Bytes, codes, arith, replicate,
}
use linux_learning_machine_c.Shell.{
  Shell, none_redir, append_redir, text_at, pipe_check, command_analysis,
}
use linux_learning_machine_c.Shell.Strtok.{strtok_first}
use linux_learning_machine_c.Shell.Process.{
  analyse, install, lowest, Process, Launch, exec, Open, inherited, reader, writer, opened, started,
  round,
}
use linux_learning_machine_c.Shell.Bars.{split_bar, trim_left}
use linux_learning_machine_c.Shell.Cutting.{pipe_check-split_bar}
use linux_learning_machine_c.Shell.Analysis.{
  Analysed, command_analysis-Analysed, command_analysis_undefined,
}
use linux_learning_machine_c.Shell.Older.{redirect_round, round-redirect_round}

abbrev idle : Bytes → Shell
idle s = record {
  command = s;
  myargv = [];
  filename = none;
  rd_option = none_redir;
  pipe_command = [];
}

abbrev shell_process : Process
shell_process = record { shell = idle (replicate 1024 0); table = started; dirs = [] }

abbrev opens : Open
opens name redir = none

-- The words that are run, with the descriptors.
abbrev launched : Option (Process × List Launch) → Option (List Launch)
launched none = none
launched (some (p, ls)) = some ls

round_redirected :
    launched (round opens (codes "ll a >> out\n") shell_process)
    ≡ some (
        exec
          (codes "ls" ∷ codes "-l" ∷ codes "--color=auto" ∷ codes "a" ∷ [])
          (some inherited
            ∷ some (opened (codes "out") append_redir)
            ∷ some inherited
            ∷ some (opened (codes "out") append_redir)
            ∷ [])
          []
        ∷ [])
unfolding round pipe_check analyse command_analysis strtok_first install lowest
round_redirected = refl

round_piped :
    launched (round opens (codes "cat x | wc\n") shell_process)
    ≡ some (
        exec
          (codes "cat" ∷ codes "x" ∷ [])
          (some inherited ∷ some (writer 0) ∷ some inherited ∷ none ∷ some (writer 0) ∷ [])
          []
        ∷ exec
            (codes "wc" ∷ [])
            (some (reader 0) ∷ some inherited ∷ some inherited ∷ some (reader 0) ∷ none ∷ [])
            []
        ∷ [])
unfolding round pipe_check analyse command_analysis strtok_first install lowest
round_piped = refl

-- "ls x > f | sort" in memory.
abbrev line : Bytes
line = codes "ls x > f | sort"

pipe_check-split_bar_example :
    (sh' : Shell) × (pipe_check (idle (line ++ 0 ∷ [])) ≡ some sh')
    × (text_at sh'.command 0 ≡ (split_bar line).0)
    × (map (text_at sh'.command) sh'.pipe_command ≡ map trim_left (split_bar line).1)
pipe_check-split_bar_example =
    pipe_check-split_bar line [] (idle (line ++ 0 ∷ [])) refl refl (omega arith) (omega arith)

abbrev command : Bytes
command = codes "ll x > f"

command_analysis-Analysed_example :
    Analysed (idle (codes "| " ++ (command ++ 0 ∷ []))) (codes "| ") command []
command_analysis-Analysed_example =
    command_analysis-Analysed (idle (codes "| " ++ (command ++ 0 ∷ []))) (codes "| ") command []
      refl refl refl (omega arith) (λ e. cc e) (omega arith)

command_analysis_undefined_example : command_analysis 0 (idle (codes "  > f" ++ 0 ∷ [])) ≡ none
command_analysis_undefined_example =
    command_analysis_undefined (idle (codes "  > f" ++ 0 ∷ [])) [] (codes "  > f") [] refl refl refl
      (omega arith) (inl refl)

abbrev piped : Bytes
piped = codes "a b| c|d > f"

round-redirect_round_example :
    round opens (codes "ll a >> out\n") shell_process
    ≡ redirect_round opens (codes "ll a >> out\n") shell_process
round-redirect_round_example =
    round-redirect_round (codes "ll a >> out") 10 shell_process (omega arith) (omega arith) opens
      (omega arith)
