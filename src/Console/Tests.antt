-- ===== src/Console/Tests.antt =====
-- The line " ih a" with a newline, and one without.
use cohere_technology_skillb.Prelude.{
  ℕ, ◌+◌, ◌^◌, ◌<◌, Option, false, if◌then◌else◌, ◌≡◌, refl, true, none, some, List, [], ◌∷◌, ◌++◌,
  arith,
}
use cohere_technology_skillb.Content.Strcmp.{strcmp}
use cohere_technology_skillb.Console.Input.{Rio, rio, readline}
use mathlib.Core.Path.{subst}
use cohere_technology_skillb.Console.Input.Clean.{AllNoNul, CleanFiles}
use cohere_technology_skillb.Console.Input.Lines.{
  Reads, readline-file_lines, IsTerminated, readline-IsTerminated,
}
use cohere_technology_skillb.Console.Interpreter.{
  Arg, Action, quit, user, Host, Console, Outcome, returned, add_cmd, record_error, find_command,
  interpret_cmda, interpret_cmd,
}
use cohere_technology_skillb.Console.Interpreter.Table.{same, IsOrdered, add_cmd-find_command}
use cohere_technology_skillb.Console.Interpreter.Safety.{IsSafe, EndsSafe, interpret_cmd-EndsSafe}
use cohere_technology_skillb.Console.Interpreter.Errors.{Counts, interpret_cmda-Counts}
use cohere_technology_skillb.Console.Run.{run_console}
use cohere_technology_skillb.Console.Run.Script.{NoFault, run_console-NoFault}
use cohere_technology_skillb.Console.{isspace, parse_args, save_strings, scan_words, next_string}
use cohere_technology_skillb.Console.Split.{Piece, line, words, parse_args-line}

abbrev pieces : List Piece
unfolding isspace
pieces =
    record {
      first = b'i';
      others = b'h' ∷ [];
      space = 32;
      spaces = [];
      is_word = (refl, (omega arith, (refl, (omega arith, tt))));
      is_space = (refl, tt);
    }
    ∷ record {
      first = b'a';
      others = [];
      space = 10;
      spaces = [];
      is_word = (refl, (omega arith, tt));
      is_space = (refl, tt);
    }
    ∷ []

spaces-IsSpace : isspace 32 ≡ true
unfolding isspace
spaces-IsSpace = refl

parse_args-line_example : parse_args ((32 ∷ []) ++ line pieces) (7 ∷ []) ≡ some (words pieces)
parse_args-line_example = parse_args-line (32 ∷ []) (7 ∷ []) pieces (spaces-IsSpace, tt)

-- Without white space at its end the last word is not terminated, and what malloc left is read.
unterminated : parse_args (b'i' ∷ b'h' ∷ []) (7 ∷ []) ≡ none
unfolding parse_args isspace save_strings scan_words next_string
unterminated = refl

-- A file of two lines, the second with no newline, read in three chunks.
abbrev file : Rio
file = rio 3 [] ((b'a' ∷ 10 ∷ b'b' ∷ []) ∷ (b'c' ∷ []) ∷ (b'd' ∷ []) ∷ [])

readline-file_lines_example :
    Reads (file ∷ []) ((b'a' ∷ 10 ∷ []) ∷ (b'b' ∷ b'c' ∷ b'd' ∷ 10 ∷ []) ∷ []) []
readline-file_lines_example =
    readline-file_lines ((b'a' ∷ []) ∷ []) (b'b' ∷ b'c' ∷ b'd' ∷ []) file [] (omega arith)
      (omega arith) (tt, refl)

abbrev first_line : List ℕ
first_line = b'a' ∷ 10 ∷ []

first_read :
    readline (file ∷ [])
    ≡ (some first_line, rio 3 (b'b' ∷ []) ((b'c' ∷ []) ∷ (b'd' ∷ []) ∷ []) ∷ [])
unfolding readline
first_read = refl

readline-IsTerminated_example : IsTerminated first_line
readline-IsTerminated_example = readline-IsTerminated (file ∷ []) _ first_line first_read

-- A program that counts its runs of the command "go", beside the commands of init_cmd.
abbrev go : Action ℕ
go argv n = (false, n + 1)

abbrev host : Host
host = record {
  strtol = λ s. (5, []);
  open_file = λ name. some (3, ((b'g' ∷ b'o' ∷ 10 ∷ []) ∷ (b'q' ∷ 10 ∷ []) ∷ []));
  set_logfile = λ name. false;
  input_ready = λ stack. true;
}

host-CleanFiles : CleanFiles host.open_file
host-CleanFiles name d chunks e =
    let same : (b'g' ∷ b'o' ∷ 10 ∷ []) ∷ (b'q' ∷ 10 ∷ []) ∷ [] ≡ chunks = cc in
    subst AllNoNul same (omega arith)

-- A NUL ends the line before its newline, and what malloc left is read.
cut_line : parse_args (b'a' ∷ 0 ∷ 10 ∷ []) (7 ∷ []) ≡ none
unfolding parse_args isspace save_strings scan_words next_string
cut_line = refl

abbrev blank : Console ℕ
blank = record {
  cmd_list = [];
  param_list = [];
  freed = false;
  vars = λ v. 5;
  err_cnt = 0;
  quit_flag = false;
  block_flag = false;
  buf_stack = [];
  quit_helpers = [];
  app = 0;
}

console : Console ℕ
console = add_cmd (b'q' ∷ []) quit (add_cmd (b'g' ∷ b'o' ∷ []) (user go) blank)

one_command : IsOrdered (add_cmd (b'g' ∷ b'o' ∷ []) (user go) blank).cmd_list
unfolding add_cmd
one_command = tt

add_cmd-find_command_example :
    IsOrdered console.cmd_list
    × ((n : Arg)
        → find_command n console.cmd_list ≡ (
            if same (strcmp n (b'q' ∷ []))
            then some quit
            else find_command n (add_cmd (b'g' ∷ b'o' ∷ []) (user go) blank).cmd_list))
unfolding console
add_cmd-find_command_example =
    add_cmd-find_command (b'q' ∷ []) quit (add_cmd (b'g' ∷ b'o' ∷ []) (user go) blank) one_command

console-IsSafe : IsSafe console
unfolding console add_cmd
console-IsSafe = (λ e. cc, tt)

interpret_cmd-EndsSafe_example : EndsSafe (interpret_cmd host first_line [] console)
interpret_cmd-EndsSafe_example =
    interpret_cmd-EndsSafe host host-CleanFiles (file ∷ []) _ first_line [] console first_read
      (omega arith, (omega arith, tt)) console-IsSafe

no_errors : console.err_cnt + 1 < 2 ^ 31
unfolding console add_cmd
no_errors = omega arith

interpret_cmda-Counts_example :
    Counts console 1 (interpret_cmda host ((b'g' ∷ b'o' ∷ []) ∷ []) console)
interpret_cmda-Counts_example =
    interpret_cmda-Counts host ((b'g' ∷ b'o' ∷ []) ∷ []) console no_errors

run_console-NoFault_example : NoFault (run_console host [] 9 9 (b'f' ∷ []) console)
run_console-NoFault_example =
    run_console-NoFault host host-CleanFiles [] 9 9 (b'f' ∷ []) console console-IsSafe

-- The command "go" has run once and been counted, and "q" has quit.
script : Outcome ℕ → Option (ℕ × ℕ)
script (returned ok c) = some (c.app, c.err_cnt)
script _ = none

script_runs : script (run_console host [] 9 9 (b'f' ∷ []) console) ≡ some (1, 1)
unfolding script run_console console add_cmd strcmp isspace record_error
script_runs = refl
