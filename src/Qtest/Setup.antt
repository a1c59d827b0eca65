-- ===== src/Qtest/Setup.antt =====
-- How qtest.c sets up the console and runs it. `none` for the program's state is the end of the
-- process in one of its commands.
use cohere_technology_skillb.Prelude.{
  ℕ, ◌-◌, Bool, true, false, Option, none, some, List, [], ◌∷◌, ltb, if◌then◌else◌, take, length,
}
use cohere_technology_skillb.Memory.{null}
use cohere_technology_skillb.Console.Interpreter.{
  Action, Operation, user, Console, Host, Outcome, returned, fault, out_of_fuel, add_cmd, add_param,
}
use cohere_technology_skillb.Console.Init.{init_cmd, add_quit_helper, set_echo}
use cohere_technology_skillb.Console.Run.{run_console, finish_cmd}
use cohere_technology_skillb.Qtest.{Tester, World, int_lt}
use cohere_technology_skillb.Qtest.Commands.{
  Result, do_new, do_free, do_insert_head, do_insert_tail, do_remove_head, do_remove_head_quiet,
  do_reverse, do_size, do_show, queue_quit,
}

abbrev pub App : Type 0
App = Option Tester

-- A command as the console runs it.
pub to_action : (List (List ℕ) → Tester → Result) → Action App
to_action f args none = (false, none)
to_action f args (some t) = elim (f args t) [
  | none ↦ (false, none)
  | some (good, t') ↦ (good, some t')
]

abbrev command : (List (List ℕ) → Tester → Result) → Operation App
command f = user (to_action f)

-- The variables behind those of console.c.
abbrev length_var : ℕ
length_var = 3

abbrev malloc_var : ℕ
malloc_var = 4

abbrev fail_var : ℕ
fail_var = 5

set_length : ℕ → App → App
set_length v none = none
set_length v (some t) = some (record t { string_length = v })

set_verblevel : ℕ → App → App
set_verblevel v none = none
set_verblevel v (some t) = some (record t { verblevel = v })

set_fail_limit : ℕ → App → App
set_fail_limit v none = none
set_fail_limit v (some t) = some (record t { fail_limit = v })

-- The percentage of failing calls of malloc shows in the supply of Memory.
pub console_init : World → Console App → Console App
unfolding to_action set_length set_fail_limit
console_init w c =
    let c = add_cmd (b'n' ∷ b'e' ∷ b'w' ∷ []) (command (do_new w)) c in
    let c = add_cmd (b'f' ∷ b'r' ∷ b'e' ∷ b'e' ∷ []) (command (do_free w)) c in
    let c = add_cmd (b'i' ∷ b'h' ∷ []) (command (do_insert_head w)) c in
    let c = add_cmd (b'i' ∷ b't' ∷ []) (command (do_insert_tail w)) c in
    let c = add_cmd (b'r' ∷ b'h' ∷ []) (command (do_remove_head w)) c in
    let c = add_cmd (b'r' ∷ b'h' ∷ b'q' ∷ []) (command (do_remove_head_quiet w)) c in
    let c =
      add_cmd (b'r' ∷ b'e' ∷ b'v' ∷ b'e' ∷ b'r' ∷ b's' ∷ b'e' ∷ []) (command (do_reverse w)) c in
    let c = add_cmd (b's' ∷ b'i' ∷ b'z' ∷ b'e' ∷ []) (command (do_size w)) c in
    let c = add_cmd (b's' ∷ b'h' ∷ b'o' ∷ b'w' ∷ []) (command (do_show w)) c in
    let c = add_param (b'l' ∷ b'e' ∷ b'n' ∷ b'g' ∷ b't' ∷ b'h' ∷ []) length_var set_length none c in
    let c = add_param (b'm' ∷ b'a' ∷ b'l' ∷ b'l' ∷ b'o' ∷ b'c' ∷ []) malloc_var (λ v t. t) none c in
    add_param (b'f' ∷ b'a' ∷ b'i' ∷ b'l' ∷ []) fail_var set_fail_limit none c

pub queue_init : Tester → Tester
queue_init t = record t { fail_count = 0; q = null }

-- The options that getopt delivers.
pub data Flag : Type 0 where
  help : Flag
  infile : List ℕ → Flag
  level : List ℕ → Flag
  logfile : List ℕ → Flag
  unknown : Flag

-- The variables of main that the options set.
pub record Options : Type 0 where
  pub infile_name : Option (List ℕ)
  pub logfile_name : Option (List ℕ)
  pub verbosity : ℕ

abbrev buf_size : ℕ
buf_size = 256

-- The loop over the options; `none` where usage ends the process. Only the terminator of the first
-- buffer is written, so a long name of a log file is a read past the end of the second: also `none`.
pub parse_options : (atoi : List ℕ → ℕ) → List Flag → Options → Option Options
parse_options atoi [] o = some o
parse_options atoi (help ∷ flags) o = none
parse_options atoi (infile name ∷ flags) o =
    parse_options atoi flags (record o { infile_name = some (take (buf_size - 1) name) })
parse_options atoi (level s ∷ flags) o = parse_options atoi flags (record o { verbosity = atoi s })
parse_options atoi (logfile name ∷ flags) o =
    let rest = parse_options atoi flags (record o { logfile_name = some name }) in
    if ltb (length name) buf_size then rest else none
parse_options atoi (unknown ∷ flags) o = none

abbrev and_finish : Outcome App → Option (Bool × Console App)
and_finish (returned true c) = elim (finish_cmd c) [
  | returned good c' ↦ some (good, c')
  | fault ↦ none
  | out_of_fuel ↦ none
]
and_finish (returned false c) = some (false, c)
and_finish fault = none
and_finish out_of_fuel = none

-- main behind the loop over the options, with its exit code; `n` and `k` are the fuel of
-- run_console. The empty name stands for NULL, the standard input.
pub run_main :
    Host
    → World
    → (unset : List ℕ) → (n k : ℕ) → Options
    → Tester
    → Console App
    → Option (ℕ × Console App)
unfolding console_init queue_init set_verblevel
run_main host w unset n k o t c =
    let c = console_init w (
      init_cmd set_verblevel
        (record c { app = some (record (queue_init t) { verblevel = o.verbosity }) })) in
    let c = if int_lt 1 o.verbosity then set_echo true c else c in
    elim (add_quit_helper (to_action (queue_quit w)) c) [
      | none ↦ none
      | some c' ↦
          elim (and_finish
            (run_console host unset n k (elim o.infile_name [ none ↦ [] | some name ↦ name ]) c')) [
              | none ↦ none
              | some (good, c'') ↦ some (if good then 0 else 1, c'')
            ]
    ]
