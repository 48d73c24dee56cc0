-- ===== src/Shell/Process.antt =====
-- pipe_t/MyShell/myshell.c: the processes of the shell with their descriptors, and the loop of `main`.
-- `fork` and `pipe` are taken to succeed. What `execvp` runs ends at some time, so that `waitpid`
-- returns; the lines that the shell prints are left out.
use linux_learning_machine_c.Base.{
  ℕ, zero, suc, ◌-◌, ◌==◌, Bool, true, false, if◌then◌else◌, Option, none, some, ◌>>=◌, List, [],
  ◌∷◌, ◌++◌, map, length, get_or, set, drop, Bytes,
}
use linux_learning_machine_c.Shell.{
  Redir, none_redir, iniput_redir, output_redir, append_redir, Shell, strlen, pipe_check,
  command_analysis, arg_text, text_at,
}

-- What a descriptor may stand for: what the shell was started with, an end of pipe `i`, a file.
pub data File : Type 0 where
  inherited : File
  reader writer : ℕ → File
  opened : Bytes → Redir → File

-- The descriptors of a process, `none` where one is free.
abbrev pub Table : Type 0
Table = List (Option File)

abbrev pub started : Table
started = some inherited ∷ some inherited ∷ some inherited ∷ []

-- The lowest free descriptor.
unfoldable pub lowest : Table → ℕ
lowest [] = 0
lowest (none ∷ t) = 0
lowest (some f ∷ t) = suc (lowest t)

unfoldable pub install : File → Table → Table
install f [] = some f ∷ []
install f (none ∷ t) = some f ∷ t
install f (some g ∷ t) = some g ∷ install f t

-- `dup2(fd, to)` at an open `fd`, and `close(fd)`.
abbrev pub dup2 : ℕ → ℕ → Table → Table
dup2 fd to t = set t to (get_or t fd none)

abbrev pub close : ℕ → Table → Table
close fd t = set t fd none

-- A process: its memory, its descriptors and what it called `chdir` with.
pub record Process : Type 0 where
  pub shell : Shell
  pub table : Table
  pub dirs : List Bytes

-- How a child ends: in `execvp` with these words and descriptors, or in `exit`.
pub data Launch : Type 0 where
  exec : List Bytes → Table → List Bytes → Launch
  exit : ℕ → Launch

-- `open(filename, ...)`: the error, or `none` where the file is opened.
abbrev pub Open : Type 0
Open = Bytes → Redir → Option ℕ

abbrev pub file_name : Shell → Bytes
file_name sh = elim sh.filename [ none ↦ [] | some p ↦ text_at sh.command p ]

-- `open`, then `dup2(fd, to)` and `execvp`, or `exit(errno)`.
abbrev pub redirect_to : Option ℕ → ℕ → Bytes → Redir → List Bytes → Table → List Bytes → Launch
redirect_to (some errno) to name redir words table dirs = exit errno
redirect_to none to name redir words table dirs =
    exec words (dup2 (lowest table) to (install (opened name redir) table)) dirs

-- The `switch` of `Child_Process` and `execvp`, at these values of the globals.
abbrev pub child_by : Open → Redir → Bytes → List Bytes → Table → List Bytes → Launch
child_by open_file none_redir name words table dirs = exec words table dirs
child_by open_file iniput_redir name words table dirs =
    redirect_to (open_file name iniput_redir) 0 name iniput_redir words table dirs
child_by open_file output_redir name words table dirs =
    redirect_to (open_file name output_redir) 1 name output_redir words table dirs
child_by open_file append_redir name words table dirs =
    redirect_to (open_file name append_redir) 1 name append_redir words table dirs

-- `Child_Process()`, which does not return.
unfoldable pub child_process : Open → Process → Launch
child_process open_file p =
    child_by open_file p.shell.rd_option (file_name p.shell)
      (map (arg_text p.shell.command) p.shell.myargv) p.table p.dirs

abbrev pub without_redir : Shell → Shell
without_redir sh = record sh { filename = none; rd_option = none_redir }

abbrev pub enter : Option Bytes → List Bytes → List Bytes
enter none dirs = dirs
enter (some d) dirs = dirs ++ d ∷ []

-- The beginning of `Pipe_Process`: the command of this process is read, whatever it is.
unfoldable pub analyse : ℕ → Process → Option Process
analyse coms p = command_analysis coms (without_redir p.shell) >>= λ (sh, runs, target).
    some (record { shell = sh; table = p.table; dirs = enter target p.dirs })

-- `dup2(fds[0], 0)`, behind `close(fds[1])` where `pfd` is null.
abbrev pub join_reader : Bool → ℕ → ℕ → Table → Table
join_reader true r w t = dup2 r 0 t
join_reader false r w t = dup2 r 0 (close w t)

-- What the processes of a part of the pipeline end in, when the process that comes back, if one does,
-- calls `Child_Process` too.
abbrev pub completed : Open → List Launch × Option Process → List Launch
completed open_file (launches, none) = launches
completed open_file (launches, some q) = launches ++ child_process open_file q ∷ []

-- `Pipe_Process(p_n, pfd)`, where `given` says that `pfd` is not null. It returns to the process that
-- called it, with what its children ended in, in order; at `p_n == 0` it does not return.
unfoldable pub pipe_process : Open → ℕ → Bool → Process → Option (List Launch × Option Process)
pipe_process open_file zero given p =
    analyse 0 p >>= λ p'. some (child_process open_file p' ∷ [], none)
pipe_process open_file (suc m) given p = analyse (get_or p.shell.pipe_command m 0) p >>= λ p'.
    let r = lowest p'.table in
    let with_reader = install (reader m) p'.table in
    let w = lowest with_reader in
    let with_pipe = install (writer m) with_reader in
    pipe_process open_file m true (record p' { table = dup2 w 1 (close r with_pipe) }) >>= λ below.
    some (completed open_file below, some (record p' { table = join_reader given r w with_pipe }))

-- The child of `main` for a line with pipes: `Pipe_Process(pipe_n, NULL)` and `Child_Process()`.
unfoldable pub run_pipeline : Open → Process → Option (List Launch)
unfolding pipe_process child_process
run_pipeline open_file p = pipe_process open_file (length p.shell.pipe_command) false p >>= λ below.
    some (completed open_file below)

-- `fgets` puts the line and a zero byte at the front of `Command`.
abbrev pub read_line : Bytes → Bytes → Bytes
read_line line command = line ++ 0 ∷ drop (suc (length line)) command

-- `Command[strlen(Command) - 1] = '\0'`; on the empty string it writes before the array.
abbrev pub cut_newline : Bytes → Option Bytes
cut_newline s = if strlen s == 0 then none else some (set s (strlen s - 1) 0)

-- The reset at the top of the loop of `main`, and the reading of a line.
unfoldable pub next_line : Bytes → Shell → Option Shell
next_line line sh = cut_newline (read_line line sh.command) >>= λ s.
    some (record sh { command = s; pipe_command = []; filename = none; rd_option = none_redir })

-- What a line without a pipe leads to, by the result of `Command_Analysis`.
abbrev pub run_command : Open → Bool → Process → Process × List Launch
run_command open_file false p = (p, [])
run_command open_file true p = (p, child_process open_file p ∷ [])

abbrev pub plain_command : Open → Process → Option (Process × List Launch)
plain_command open_file p = command_analysis 0 p.shell >>= λ (sh, runs, target). some (
    run_command open_file runs (record { shell = sh; table = p.table; dirs = enter target p.dirs }))

-- `if (0 == pipe_n) ... else ...`
abbrev pub dispatch : List ℕ → Open → Process → Option (Process × List Launch)
dispatch [] open_file p = plain_command open_file p
dispatch (c ∷ cs) open_file p = run_pipeline open_file p >>= λ launches. some (p, launches)

-- One round of the loop of `main`, on a line that `fgets` reads: the shell behind it, and what its
-- children ended in, in order.
unfoldable pub round : Open → Bytes → Process → Option (Process × List Launch)
unfolding next_line run_pipeline child_process
round open_file line p = next_line line p.shell >>= λ read. pipe_check read >>= λ sh.
    let p' = record p { shell = sh } in dispatch sh.pipe_command open_file p'
