-- ===== src/Shell.antt =====
-- pipe_t/MyShell/myshell.c: the command line, and how it is cut into commands, words and a file name.
-- `Command` is its bytes, a pointer into it is a position, and a string ends at the first zero byte.
pub mod Strtok
pub mod Process
pub mod Bars
pub mod Cutting
pub mod Words
pub mod Redirect
pub mod Analysis
pub mod Wiring
pub mod Older
mod Tests
use linux_learning_machine_c.Base.{
  ℕ, zero, suc, ◌+◌, ◌-◌, ◌==◌, ltb, leb, Bool, true, false, ◌&&◌, ◌||◌, if◌then◌else◌, Option,
  none, some, ◌>>=◌, List, [], ◌∷◌, ◌++◌, length, get_or, set, drop, Bytes, codes, c_str, same,
}
use linux_learning_machine_c.Shell.Strtok.{Tokens, strtok_first, strtok_next}

-- `enum REDIR`
pub data Redir : Type 0 where
  none_redir iniput_redir output_redir append_redir : Redir

-- A pointer in `myargv`: into `Command`, or to a literal.
pub data Arg : Type 0 where
  at : ℕ → Arg
  literal : Bytes → Arg

-- The globals. `pipe_command` holds the first `pipe_n` entries of the array, and `myargv` the entries
-- before the null pointer.
pub record Shell : Type 0 where
  pub command : Bytes
  pub myargv : List Arg
  pub filename : Option ℕ
  pub rd_option : Redir
  pub pipe_command : List ℕ

abbrev pub ag_num : ℕ
ag_num = 64

abbrev pub pc_num : ℕ
pc_num = 64

abbrev pub is_space : ℕ → Bool
is_space c = c == 32 || (leb 9 c && leb c 13)

abbrev pub spaces : Bytes → ℕ
spaces [] = 0
spaces (c ∷ s) = if is_space c then suc (spaces s) else 0

-- `TrimSpace(POINTER, POS)`: the new position.
abbrev pub trim_space : Bytes → ℕ → ℕ
trim_space s pos = pos + spaces (drop pos s)

abbrev pub strlen : Bytes → ℕ
strlen s = length (c_str s)

-- `Pipe_Command[pipe_n++] = p`; a write behind the array is undefined.
abbrev pub store_command : ℕ → Shell → Option Shell
store_command p sh =
    if ltb (length sh.pipe_command) pc_num
    then some (record sh { pipe_command = sh.pipe_command ++ p ∷ [] })
    else none

-- The loop of `Pipe_Check`, from `begin` on, with a step of fuel for each round.
unfoldable pub pipe_loop : ℕ → ℕ → ℕ → Shell → Option Shell
pipe_loop zero len begin sh = some sh
pipe_loop (suc fuel) len begin sh =
    let cut = set sh.command begin 0 in
    let next = trim_space cut (suc begin) in
    let here =
      (store_command next (record sh { command = cut }) >>= λ sh'. pipe_loop fuel len next sh') in
    let later = pipe_loop fuel len (suc begin) sh in
    if ltb begin len then if get_or sh.command begin 0 == b'|' then here else later else some sh

-- `Pipe_Check(Command)`
unfoldable pub pipe_check : Shell → Option Shell
unfolding pipe_loop
pipe_check sh = pipe_loop (strlen sh.command) (strlen sh.command) 0 sh

-- The branch of `Redir_Check` for '<' at `begin`.
abbrev pub input_from : ℕ → Shell → Shell
input_from begin sh =
    let cut = set sh.command begin 0 in
    record sh {
      command = cut;
      filename = some (trim_space cut (suc begin));
      rd_option = iniput_redir;
    }

-- The branch for '>' at `begin`.
abbrev pub output_to : ℕ → Shell → Shell
output_to begin sh =
    let cut = set sh.command begin 0 in
    if get_or cut (suc begin) 0 == b'>'
    then record sh {
      command = cut;
      filename = some (trim_space cut (suc (suc begin)));
      rd_option = append_redir;
    }
    else record sh {
      command = cut;
      filename = some (trim_space cut (suc begin));
      rd_option = output_redir;
    }

-- The loop of `Redir_Check` at `begin`, where the text still to be looked at starts; it ends with the
-- first write.
unfoldable pub redir_loop : ℕ → Bytes → Shell → Shell
redir_loop begin [] sh = sh
redir_loop begin (c ∷ text) sh =
    if c == b'<'
    then input_from begin sh
    else if c == b'>'
    then output_to begin sh
    else redir_loop (suc begin) text sh

-- `Redir_Check(Command + coms)`
unfoldable pub redir_check : ℕ → Shell → Shell
unfolding redir_loop
redir_check coms sh = redir_loop coms (c_str (drop coms sh.command)) sh

-- What a pointer points to.
abbrev pub text_at : Bytes → ℕ → Bytes
text_at s p = c_str (drop p s)

abbrev pub arg_text : Bytes → Arg → Bytes
arg_text s (at p) = text_at s p
arg_text s (literal t) = t

-- The rewriting of "ll" and "ls": what the array holds before the second word. `strcmp` of a pointer
-- and a literal compares the texts.
abbrev pub first_args : Bytes → ℕ → List Arg
first_args s p =
    if same (text_at s p) (codes "ll")
    then literal (codes "ls") ∷ literal (codes "-l") ∷ literal (codes "--color=auto") ∷ []
    else if same (text_at s p) (codes "ls")
    then at p ∷ literal (codes "--color=auto") ∷ []
    else at p ∷ []

-- A write to `myargv`: of a word, behind which the loop goes on, or of the null pointer. A write
-- behind the array is undefined.
abbrev pub place :
    Option ℕ
    → Tokens
    → List Arg
    → (List Arg → Option (Bytes × List Arg))
    → Option (Bytes × List Arg)
place none t args next = if ltb (length args) ag_num then some (t.buffer, args) else none
place (some p) t args next = if ltb (length args) ag_num then next (args ++ at p ∷ []) else none

-- `while ((myargv[i++] = strtok(NULL, " ")));`
unfoldable pub other_args : ℕ → Tokens → List Arg → Option (Bytes × List Arg)
other_args zero t args = none
other_args (suc fuel) t args =
    let (found, t') = strtok_next t in place found t' args (λ args'. other_args fuel t' args')

-- From the first word on. `strcmp(NULL, "cd")` is undefined, so a text without a word has no outcome.
abbrev pub with_first : Shell → Option ℕ → Tokens → Option Shell
with_first sh none t = none
with_first sh (some p) t =
    other_args (suc (length sh.command)) t (first_args t.buffer p) >>= λ (s, args).
    some (record sh { command = s; myargv = args })

-- The words of `Command_Analysis(Command + coms)`.
unfoldable pub split_words : ℕ → Shell → Option Shell
unfolding other_args
split_words coms sh = let (found, t) = strtok_first coms sh.command in with_first sh found t

-- The handling of `cd`: whether a process is to run the command, and what `chdir` is called with.
abbrev pub cd_target : Bytes → List Arg → Bool × Option Bytes
cd_target s [] = (true, none)
cd_target s (a ∷ []) = if same (arg_text s a) (codes "cd") then (false, none) else (true, none)
cd_target s (a ∷ b ∷ rest) =
    if same (arg_text s a) (codes "cd") then (false, some (arg_text s b)) else (true, none)

-- `Command_Analysis(Command + coms)`, with what `chdir` is called with.
unfoldable pub command_analysis : ℕ → Shell → Option (Shell × Bool × Option Bytes)
unfolding redir_check split_words
command_analysis coms sh = split_words coms (redir_check coms sh) >>= λ sh'.
    let (runs, target) = cd_target sh'.command sh'.myargv in some (sh', runs, target)
