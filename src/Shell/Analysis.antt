-- ===== src/Shell/Analysis.antt =====
-- pipe_t/MyShell/myshell.c: what `Command_Analysis` makes of a command: its words, the redirection
-- and whether a process runs it.
use linux_learning_machine_c.Base.{
  ◌⊎◌, inl, inr, ◌≤◌, ◌+◌, ◌<◌, ◌≡◌, ◌≢◌, refl, ap, ◌∙◌, Bool, true, false, if◌then◌else◌, Option,
  none, some, List, [], ◌∷◌, ◌++◌, map, length, drop, Bytes, Lacks, codes, same, c_str, arith,
  c_str_zero, drop-length,
}
use linux_learning_machine_c.Shell.{
  Shell, none_redir, Arg, arg_text, ag_num, redir_loop, redir_check, cd_target, command_analysis,
}
use linux_learning_machine_c.Shell.Process.{file_name}
use linux_learning_machine_c.Shell.Words.{words}
use linux_learning_machine_c.Shell.Words.Split.{
  arguments, split_words-HasWords, split_words-none, split_words_too_many,
}
use linux_learning_machine_c.Shell.Redirect.Name.{name_text, name_lem}
use linux_learning_machine_c.Shell.Redirect.{
  before_angle, from_angle, redirection, behind, name_at, cut_shell, whole_shell, redir_loop_lem,
  before_angle-Lacks, from_angle-Lacks,
}

-- What `cd` means for the words of a command.
abbrev pub cd_of : List Bytes → Bool × Option Bytes
cd_of [] = (true, none)
cd_of (w ∷ []) = if same w (codes "cd") then (false, none) else (true, none)
cd_of (w ∷ d ∷ ws) = if same w (codes "cd") then (false, some d) else (true, none)

cd_target-cd_of : (s : Bytes) (args : List Arg) → cd_target s args ≡ cd_of (map (arg_text s) args)
cd_target-cd_of s [] = refl
cd_target-cd_of s (a ∷ []) = refl
cd_target-cd_of s (a ∷ b ∷ args) = refl

-- What the analysis of the text between `pre` and `rest` leaves: the words in front of the redirection
-- in `myargv`, the redirection, the text in front, and what `cd` asks for.
pub record Analysed (sh : Shell) (pre t rest : Bytes) : Type 0 where
  pub after : Shell
  pub kept : Bytes
  pub result :
      command_analysis (length pre) sh
      ≡ some (
        after,
        (cd_of (arguments (words (before_angle t)))).0,
        (cd_of (arguments (words (before_angle t)))).1,
      )
  pub in_front : after.command ≡ pre ++ kept
  pub words_read : map (arg_text after.command) after.myargv ≡ arguments (words (before_angle t))
  pub redirected : after.rd_option ≡ (redirection (from_angle t)).0
  pub named : file_name after ≡ (redirection (from_angle t)).1
  pub commands : after.pipe_command ≡ sh.pipe_command

module _ (sh : Shell) (pre t rest : Bytes) (e : sh.command ≡ pre ++ (t ++ 0 ∷ rest))
    (no_name : sh.filename ≡ none) (no_redir : sh.rd_option ≡ none_redir) (h : Lacks 0 t) where
  redir_check_lem :
      redir_check (length pre) sh ≡ cut_shell pre rest sh (before_angle t) (from_angle t)
  unfolding redir_check
  redir_check_lem =
      let same : sh ≡ whole_shell pre rest sh [] t =
        λ i. record sh { command = e i; filename = no_name i; rd_option = no_redir i } in
      let text : c_str (drop (length pre) (pre ++ (t ++ 0 ∷ rest))) ≡ t =
        ap c_str (drop-length pre (t ++ 0 ∷ rest)) ∙ c_str_zero t rest h in
      let start : length pre ≡ length pre + 0 = omega arith in
      ap (redir_check (length pre)) same
      ∙ (λ i. redir_loop (start i) (text i) (whole_shell pre rest sh [] t))
      ∙ redir_loop_lem pre rest sh [] t

  -- Where a command has a word in front of its redirection and its words fit into `myargv`,
  -- `Command_Analysis` leaves pointers to these words there ("ll" and "ls" expanded), the kind of the
  -- redirection and a pointer to the name of its file; the text in front of the command and the
  -- pointers to the other commands stay, and `cd` is told from other commands.
  pub command_analysis-Analysed :
      words (before_angle t) ≢ []
      → length (arguments (words (before_angle t))) < ag_num
      → Analysed sh pre t rest
  unfolding command_analysis
  command_analysis-Analysed some_words fits =
      let u = before_angle t in
      let v = from_angle t in
      let cut = cut_shell pre rest sh u v in
      let s =
        split_words-HasWords cut pre u (behind v rest) refl (before_angle-Lacks t h) some_words
          fits in
      let after = record cut { command = pre ++ (s.kept ++ 0 ∷ behind v rest); myargv = s.args } in
      let length_kept : length pre + length u ≡ length pre + length s.kept =
        omega (arith, s.size) in
      let target = cd_target-cd_of after.command s.args ∙ ap cd_of s.reads in
      record {
        after = after;
        kept = s.kept ++ 0 ∷ behind v rest;
        result = rw (redir_check_lem, s.result) (λ i. some (after, (target i).0, (target i).1));
        in_front = refl;
        words_read = s.reads;
        redirected = refl;
        named =
            ap (λ n. name_text after.command (name_at n v)) length_kept
            ∙ name_lem pre s.kept rest v (from_angle-Lacks t h);
        commands = refl;
      }

  -- A command without a word in front of its redirection is undefined, as `strcmp` gets a null pointer,
  -- and so is one whose words and null pointer do not fit into `myargv`.
  pub command_analysis_undefined :
      (words (before_angle t) ≡ []) ⊎ (ag_num ≤ length (arguments (words (before_angle t))))
      → command_analysis (length pre) sh ≡ none
  unfolding command_analysis
  command_analysis_undefined (inl blank) = rw (
    redir_check_lem,
    split_words-none (cut_shell pre rest sh (before_angle t) (from_angle t)) pre (before_angle t)
        (behind (from_angle t) rest) refl (before_angle-Lacks t h) blank,
  )
  command_analysis_undefined (inr many) = rw (
    redir_check_lem,
    split_words_too_many (cut_shell pre rest sh (before_angle t) (from_angle t)) pre
        (before_angle t) (behind (from_angle t) rest) refl (before_angle-Lacks t h) many,
  )
