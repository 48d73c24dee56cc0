-- ===== src/Shell/Wiring.antt =====
-- pipe_t/MyShell/myshell.c: which descriptors the commands of a line with pipes are run with.
pub mod Tables
pub mod Line
use linux_learning_machine_c.Base.{
  ℕ, zero, suc, ◌+◌, ◌<◌, ◌≡◌, ◌≢◌, refl, sym, ap, ◌∙◌, Bool, true, false, Option, none, some,
  ◌>>=◌, List, [], ◌∷◌, ◌++◌, map, append_assoc, length, length-append, get_or, set, All, Bytes,
  Lacks, arith,
}
use linux_learning_machine_c.Shell.{
  Shell, Redir, none_redir, iniput_redir, output_redir, append_redir, arg_text, ag_num,
  command_analysis,
}
use linux_learning_machine_c.Shell.Process.{
  File, reader, writer, opened, Table, lowest, install, dup2, close, Process, Launch, exec, exit,
  Open, file_name, child_by, child_process, without_redir, enter, analyse, join_reader,
  pipe_process, run_pipeline, inherited, started, completed,
}
use linux_learning_machine_c.Shell.Wiring.Tables.{
  reader_at, writer_at, with_pipe, child_table, parent_input, parent_output, parent_writer,
}
use linux_learning_machine_c.Shell.Words.{words}
use linux_learning_machine_c.Shell.Words.Split.{arguments}
use linux_learning_machine_c.Shell.Redirect.{before_angle, from_angle, redirection}
use linux_learning_machine_c.Shell.Analysis.{Analysed, command_analysis-Analysed, cd_of}

-- How `Child_Process` ends in a process that has analysed the command `t`.
abbrev pub launch_of : Open → Bytes → Table → List Bytes → Launch
launch_of open_file t table dirs =
    child_by open_file (redirection (from_angle t)).0 (redirection (from_angle t)).1
      (arguments (words (before_angle t))) table dirs

child_process-launch_of :
    (open_file : Open) {sh : Shell} {pre t rest : Bytes} (a : Analysed sh pre t rest)
    (table : Table) (dirs : List Bytes)
    → child_process open_file (record { shell = a.after; table = table; dirs = dirs })
      ≡ launch_of open_file t table dirs
unfolding child_process
child_process-launch_of open_file a table dirs =
    λ i. child_by open_file (a.redirected i) (a.named i) (a.words_read i) table dirs

-- A command that `Command_Analysis` can read: it has a word, and its words fit into `myargv`.
abbrev pub IsCommand : Bytes → Type 0
IsCommand t =
    Lacks 0 t
    × (words (before_angle t) ≢ [])
    × (length (arguments (words (before_angle t))) < ag_num)

-- The commands up to number `m` in memory, each behind the one before it and found by its pointer; the
-- last of them first in the list.
pub data Laid (ps : List ℕ) : ℕ → Bytes → List Bytes → Type 0 where
  first : {s : Bytes} (t : Bytes) → s ≡ t ++ 0 ∷ [] → Laid ps 0 s (t ∷ [])
  next :
      {m : ℕ} {s s' : Bytes} {ts : List Bytes} (gap t : Bytes)
      → Laid ps m s ts
      → get_or ps m 0 ≡ length (s ++ gap)
      → s' ≡ (s ++ gap) ++ (t ++ 0 ∷ [])
      → Laid ps (suc m) s' (t ∷ ts)

-- The processes of the commands up to number `m`, in order. The first reads `input`, the last writes
-- `output`, and each other one reads or writes the pipe between it and its neighbour. A process that
-- was forked by `Pipe_Process` (`forked`) also has the writing end of the pipe that it reads.
pub data Wired (open_file : Open) (input : File)
    : Bool → ℕ → File → List Bytes → List Launch → Type 0 where
  alone :
      {forked : Bool} {output : File} {t : Bytes} {l : Launch} (table : Table) (dirs : List Bytes)
      → get_or table 0 none ≡ some input
      → get_or table 1 none ≡ some output
      → l ≡ launch_of open_file t table dirs
      → Wired open_file input forked 0 output (t ∷ []) (l ∷ [])
  joined :
      {forked : Bool} {m : ℕ} {output : File} {t : Bytes} {ts : List Bytes} {ls ls' : List Launch}
      (table : Table) (dirs : List Bytes)
      → Wired open_file input true m (writer m) ts ls
      → get_or table 0 none ≡ some (reader m)
      → get_or table 1 none ≡ some output
      → (forked ≡ true → (fd : ℕ) × (get_or table fd none ≡ some (writer m)))
      → ls' ≡ ls ++ launch_of open_file t table dirs ∷ []
      → Wired open_file input forked (suc m) output (t ∷ ts) ls'

-- The process that has analysed p a command.
analysed :
    (p : Process) {pre t rest : Bytes} → Analysed (without_redir p.shell) pre t rest → Process
analysed p {t = t} a = record {
  shell = a.after;
  table = p.table;
  dirs = enter (cd_of (arguments (words (before_angle t)))).1 p.dirs;
}

analyse_lem :
    (p : Process) (pre t rest : Bytes)
    → p.shell.command ≡ pre ++ (t ++ 0 ∷ rest)
    → IsCommand t
    → (a : Analysed (without_redir p.shell) pre t rest) × (analyse (length pre) p
        ≡ some (analysed p a))
unfolding analyse analysed
analyse_lem p pre t rest e h =
    let a = command_analysis-Analysed (without_redir p.shell) pre t rest e refl refl h.0 h.1 h.2 in
    (a, rw a.result)

module _ (open_file : Open) (input : File) {ps : List ℕ} where
  pipe_process-Wired :
      (m : ℕ) (given : Bool) (p : Process) (s rest : Bytes) (ts : List Bytes) (output other : File)
      (u : Table)
      → Laid ps m s ts
      → p.shell.pipe_command ≡ ps
      → All IsCommand ts
      → p.shell.command ≡ s ++ rest
      → p.table ≡ some input ∷ some output ∷ some other ∷ u
      → (below : List Launch × Option Process) × (pipe_process open_file m given p ≡ some below)
        × Wired open_file input given m output ts (completed open_file below)
  unfolding pipe_process analysed analyse_lem install lowest
  pipe_process-Wired m given p s rest ts output other u (first t es) ep h e et =
      let (a, done) =
        analyse_lem p [] t rest (e ∙ ap (λ x. x ++ rest) es ∙ append_assoc t (0 ∷ []) rest) h.0 in
      (
        (child_process open_file (analysed p a) ∷ [], none),
        rw done,
        alone p.table (analysed p a).dirs (ap (λ x. get_or x 0 none) et)
            (ap (λ x. get_or x 1 none) et)
            (child_process-launch_of open_file a p.table (analysed p a).dirs),
      )
  pipe_process-Wired m' given p s rest ts' output other u
        (next {m = m} {s = s'} {ts = ts} gap t laid at es) ep h e et =
      let whole : p.shell.command ≡ (s' ++ gap) ++ (t ++ 0 ∷ rest) =
        e
        ∙ ap (λ x. x ++ rest) es
        ∙ append_assoc (s' ++ gap) (t ++ 0 ∷ []) rest
        ∙ ap (λ x. (s' ++ gap) ++ x) (append_assoc t (0 ∷ []) rest) in
      let (a, done) = analyse_lem p (s' ++ gap) t rest whole h.0 in
      let q = analysed p a in
      let found : get_or p.shell.pipe_command m 0 ≡ length (s' ++ gap) =
        ap (λ x. get_or x m 0) ep ∙ at in
      let child = record q {
        table =
            dup2 (writer_at input output other u m) 1
              (close (reader_at input output other u m) (with_pipe input output other u m));
      } in
      let (below, ran, wired) =
        pipe_process-Wired m true child s' (gap ++ a.kept) ts (writer m) other
          (set (install (writer m) (install (reader m) u)) (lowest u) none) laid (a.commands ∙ ep)
          h.1 (a.in_front ∙ append_assoc s' gap a.kept) (child_table input output other u m) in
      (
        (
          completed open_file below,
          some (record q {
            table =
                join_reader given (reader_at input output other u m)
                  (writer_at input output other u m) (with_pipe input output other u m);
          }),
        ),
        rw (found, done, et, ran),
        joined
            (join_reader given (reader_at input output other u m) (writer_at input output other u m)
              (with_pipe input output other u m))
            q.dirs wired (parent_input input output other u m given)
            (parent_output input output other u m given)
            (λ forked.
              (writer_at input output other u m, rw forked (parent_writer input output other u m)))
            (ap (λ l. completed open_file below ++ l ∷ [])
              (child_process-launch_of open_file a
                (join_reader given (reader_at input output other u m)
                  (writer_at input output other u m) (with_pipe input output other u m))
                q.dirs)),
      )

-- A line with pipes: every command is run with its words, in order; the first reads what the shell
-- reads, the last writes where the shell writes, and each other one reads the pipe from the command
-- before it or writes the pipe to the one behind it. Each command between the first and the last also
-- has the writing end of the pipe that it reads, so it never reads an end of file.
pub run_pipeline-Wired :
    (open_file : Open) (p : Process) (s rest : Bytes) (ts : List Bytes)
    → Laid p.shell.pipe_command (length p.shell.pipe_command) s ts
    → All IsCommand ts
    → p.shell.command ≡ s ++ rest
    → p.table ≡ started
    → (launches : List Launch) × (run_pipeline open_file p ≡ some launches)
      × Wired open_file inherited false (length p.shell.pipe_command) inherited ts launches
unfolding run_pipeline
run_pipeline-Wired open_file p s rest ts laid h e et =
    let (below, ran, wired) =
      pipe_process-Wired open_file inherited (length p.shell.pipe_command) false p s rest ts
        inherited inherited [] laid refl h e et in
    (completed open_file below, rw ran, wired)
