-- ===== src/Shell/Older.antt =====
-- MyShell/myshell.c and redirection/MyShell/myshell.c: the shell before it had pipes, and before it had
-- redirections.
use linux_learning_machine_c.Base.{
  ℕ, suc, ◌-◌, ◌≡◌, ◌≢◌, refl, ap, ◌∙◌, ◌==◌, Bool, true, false, Option, none, some, ◌>>=◌, List,
  [], ◌∷◌, ◌++◌, map, length, set, set-length, Bytes, Lacks, arith, c_str_zero, c_str, drop,
  All-append, length-snoc, snoc-append,
}
use linux_learning_machine_c.Shell.{
  Shell, Arg, arg_text, with_first, other_args, first_args, redir_check, split_words, cd_target,
  command_analysis, none_redir,
}
use linux_learning_machine_c.Shell.Strtok.{Tokens, strtok_first}
use linux_learning_machine_c.Shell.Process.{
  Process, Launch, exec, Open, child_process, enter, next_line, round, run_command, plain_command,
}
use linux_learning_machine_c.Shell.Cutting.{pipe_check-no_bar}
use linux_learning_machine_c.Shell.Redirect.{redir_check-no_angle}

-- What `cd` and `fork` do, where `start` is what the child does.
abbrev finish : (Process → Launch) → Process → Bool × Option Bytes → Process × List Launch
finish start p (false, target) = (record p { dirs = enter target p.dirs }, [])
finish start p (true, target) =
    let p' = record p { dirs = enter target p.dirs } in (p', start p' ∷ [])

-- `execvp(myargv[0], myargv)`
abbrev exec_words : Process → Launch
exec_words p = exec (map (arg_text p.shell.command) p.shell.myargv) p.table p.dirs

-- One round of the loop of `main` of MyShell/myshell.c, on a line that `fgets` reads.
unfoldable pub first_round : Bytes → Process → Option (Process × List Launch)
unfolding next_line split_words
first_round line p = next_line line p.shell >>= λ read. split_words 0 read >>= λ sh.
    some (finish exec_words (record p { shell = sh }) (cd_target sh.command sh.myargv))

-- One round of the loop of `main` of redirection/MyShell/myshell.c.
unfoldable pub redirect_round : Open → Bytes → Process → Option (Process × List Launch)
unfolding next_line redir_check split_words child_process
redirect_round open_file line p = next_line line p.shell >>= λ read.
    split_words 0 (redir_check 0 read) >>= λ sh.
    some
      (finish (child_process open_file) (record p { shell = sh }) (cd_target sh.command sh.myargv))

-- `main` overwrites the newline.
pub next_line_lem :
    (l : Bytes) (c : ℕ) (sh : Shell)
    → Lacks 0 l
    → c ≢ 0
    → next_line (l ++ c ∷ []) sh
      ≡ some (record sh {
        command = l ++ 0 ∷ (0 ∷ drop (suc (length (l ++ c ∷ []))) sh.command);
        pipe_command = [];
        filename = none;
        rd_option = none_redir;
      })
unfolding next_line
next_line_lem l c sh h nonzero =
    let tail = drop (suc (length (l ++ c ∷ []))) sh.command in
    let len : length (c_str ((l ++ c ∷ []) ++ 0 ∷ tail)) ≡ suc (length l) =
      ap length (c_str_zero (l ++ c ∷ []) tail (All-append (λ x. x ≢ 0) l (c ∷ []) h (nonzero, tt)))
      ∙ length-snoc l c in
    let some_bytes : (suc (length l) == 0) ≡ false = ground arith in
    let last : suc (length l) - 1 ≡ length l = omega arith in
    let cut : set ((l ++ c ∷ []) ++ 0 ∷ tail) (length l) 0 ≡ l ++ 0 ∷ (0 ∷ tail) =
      ap (λ x. set x (length l) 0) (snoc-append l c (0 ∷ tail)) ∙ set-length l c (0 ∷ tail) 0 in
    rw (len, some_bytes, last, cut)

run_command-finish :
    (open_file : Open) (p : Process) (sh : Shell) (cd : Bool × Option Bytes)
    → run_command open_file cd.0 (record { shell = sh; table = p.table; dirs = enter cd.1 p.dirs })
      ≡ finish (child_process open_file) (record p { shell = sh }) cd
run_command-finish open_file p sh (true, target) = refl
run_command-finish open_file p sh (false, target) = refl

abbrev finish_round : (Process → Launch) → Process → Option Shell → Option (Process × List Launch)
finish_round start p o =
    o >>= λ sh. some (finish start (record p { shell = sh }) (cd_target sh.command sh.myargv))

-- The words of a command without a redirection are run as they are.
module _ (open_file : Open) (p : Process) (sh : Shell) (plain : sh.rd_option ≡ none_redir) where
  finish_same :
      (s : Bytes) (args : List Arg) (cd : Bool × Option Bytes)
      → finish
          (child_process open_file)
          (record p { shell = record sh { command = s; myargv = args } })
          cd
        ≡ finish exec_words (record p { shell = record sh { command = s; myargv = args } }) cd
  unfolding child_process
  finish_same s args (false, target) = refl
  finish_same s args (true, target) = rw plain

  same_by_args :
      (o : Option (Bytes × List Arg))
      → finish_round
          (child_process open_file)
          p
          (o >>= λ (s, args). some (record sh { command = s; myargv = args }))
        ≡ finish_round exec_words p
            (o >>= λ (s, args). some (record sh { command = s; myargv = args }))
  same_by_args none = refl
  same_by_args (some (s, args)) = ap some (finish_same s args (cd_target s args))

  same_by_word :
      (found : Option ℕ) (t : Tokens)
      → finish_round (child_process open_file) p (with_first sh found t)
        ≡ finish_round exec_words p (with_first sh found t)
  same_by_word none t = refl
  same_by_word (some n) t =
      same_by_args (other_args (suc (length sh.command)) t (first_args t.buffer n))

  same_split :
      finish_round (child_process open_file) p (split_words 0 sh)
      ≡ finish_round exec_words p (split_words 0 sh)
  unfolding split_words
  same_split = same_by_word (strtok_first 0 sh.command).0 (strtok_first 0 sh.command).1

plain_command-finish :
    (open_file : Open) (p : Process)
    → plain_command open_file p
      ≡ finish_round (child_process open_file) p (split_words 0 (redir_check 0 p.shell))
unfolding command_analysis
plain_command-finish open_file p = by_words (split_words 0 (redir_check 0 p.shell))
  where
    by_words :
        (o : Option Shell)
        → (o
            >>= (λ sh.
                some (sh, (cd_target sh.command sh.myargv).0, (cd_target sh.command sh.myargv).1))
            >>= λ (sh, runs, target). some (
                run_command open_file runs
                  (record { shell = sh; table = p.table; dirs = enter target p.dirs })))
          ≡ finish_round (child_process open_file) p o
    by_words none = refl
    by_words (some sh) =
        ap some (run_command-finish open_file p sh (cd_target sh.command sh.myargv))

module _ (l : Bytes) (c : ℕ) (p : Process) (h : Lacks 0 l) (nonzero : c ≢ 0)
    (open_file : Open) where
  abbrev read : Shell
  read = record p.shell {
    command = l ++ 0 ∷ (0 ∷ drop (suc (length (l ++ c ∷ []))) p.shell.command);
    pipe_command = [];
    filename = none;
    rd_option = none_redir;
  }

  -- On a line without a bar the shell with pipes does what the shell with redirections does.
  pub round-redirect_round :
      Lacks b'|' l → round open_file (l ++ c ∷ []) p ≡ redirect_round open_file (l ++ c ∷ []) p
  unfolding round redirect_round
  round-redirect_round bars =
      let plain =
        pipe_check-no_bar l (0 ∷ drop (suc (length (l ++ c ∷ []))) p.shell.command) read refl refl h
          bars in
      rw (next_line_lem l c p.shell h nonzero, plain)
        (plain_command-finish open_file (record p { shell = read }) ∙ refl)

  -- On a line without a redirection it does what the first shell does.
  pub redirect_round-first_round :
      Lacks b'<' l
      → Lacks b'>' l
      → redirect_round open_file (l ++ c ∷ []) p ≡ first_round (l ++ c ∷ []) p
  unfolding redirect_round first_round
  redirect_round-first_round ins outs =
      let plain =
        redir_check-no_angle l (0 ∷ drop (suc (length (l ++ c ∷ []))) p.shell.command) read refl
          refl refl h ins outs in
      rw (next_line_lem l c p.shell h nonzero, plain) (same_split open_file p read refl)
