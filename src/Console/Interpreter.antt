-- ===== src/Console/Interpreter.antt =====
-- The commands of console.c over the state `S` of the program that uses the console. Integers are
-- 32-bit patterns. strtol, open and set_logfile are parameters; output and times are not modelled.
pub mod Table
pub mod Fields
pub mod Safety
pub mod Errors
use cohere_technology_skillb.Prelude.{
  ℕ, zero, suc, ◌+◌, ◌-◌, ◌%◌, ◌^◌, Bool, true, false, not, ◌||◌, ◌&&◌, Option, none, some, List,
  [], ◌∷◌, ◌++◌, ◌==◌, ltb, leb, if◌then◌else◌,
}
use cohere_technology_skillb.Content.Strcmp.{Sign, strcmp, lt, eq, gt}
use cohere_technology_skillb.Console.{parse_args}
use cohere_technology_skillb.Console.Input.{Rio, push_file, readline, read_ready}

abbrev pub Arg : Type 0
Arg = List ℕ

-- What the program's own functions do to its state.
abbrev pub Action : Type 0 → Type 0
Action S = List Arg → S → Bool × S

-- cmd_function: the functions of console.c, and those of the program.
pub data Operation (S : Type 0) : Type 0 where
  help option quit source log time comment : Operation S
  user : Action S → Operation S

-- CELE
pub record Command (S : Type 0) : Type 0 where
  pub name : Arg
  pub operation : Operation S

-- PELE: `valp` says which variable, and `store` is a write to it where it is one of the program's.
pub record Param (S : Type 0) : Type 0 where
  pub name : Arg
  pub valp : ℕ
  pub store : ℕ → S → S
  pub setter : Option (ℕ → S → S)

-- The static variables of console.c. `freed` says that do_quit_cmd has freed the elements of both
-- lists, to which the pointers still point.
pub record Console (S : Type 0) : Type 0 where
  pub cmd_list : List (Command S)
  pub param_list : List (Param S)
  pub freed : Bool
  pub vars : ℕ → ℕ
  pub err_cnt : ℕ
  pub quit_flag : Bool
  pub block_flag : Bool
  pub buf_stack : List Rio
  pub quit_helpers : List (Action S)
  pub app : S

-- The variables that init_cmd declares.
abbrev pub verblevel : ℕ
verblevel = 0

abbrev pub err_limit : ℕ
err_limit = 1

abbrev pub echo : ℕ
echo = 2

-- a <= b on int
abbrev pub int_le : ℕ → ℕ → Bool
int_le a b = leb ((a + 2 ^ 31) % 2 ^ 32) ((b + 2 ^ 31) % 2 ^ 32)

-- What a call returns, with the state; a use of a freed element is a fault.
pub data Outcome (S : Type 0) : Type 0 where
  returned : Bool → Console S → Outcome S
  fault : Outcome S
  out_of_fuel : Outcome S

module _ {S : Type 0} where
  -- The place before the first element that the name is not behind.
  insert_command : Command S → List (Command S) → List (Command S)
  insert_command ele [] = ele ∷ []
  insert_command ele (next ∷ rest) = elim (strcmp ele.name next.name) [
    | gt ↦ next ∷ insert_command ele rest
    | other ↦ ele ∷ next ∷ rest
  ]

  insert_param : Param S → List (Param S) → List (Param S)
  insert_param ele [] = ele ∷ []
  insert_param ele (next ∷ rest) = elim (strcmp ele.name next.name) [
    | gt ↦ next ∷ insert_param ele rest
    | other ↦ ele ∷ next ∷ rest
  ]

  unfoldable pub add_cmd : Arg → Operation S → Console S → Console S
  unfolding insert_command
  add_cmd n f c = record c {
    cmd_list = insert_command (record { name = n; operation = f }) c.cmd_list;
  }

  unfoldable pub add_param : Arg → ℕ → (ℕ → S → S) → Option (ℕ → S → S) → Console S → Console S
  unfolding insert_param
  add_param n v st f c = record c {
    param_list = insert_param (record { name = n; valp = v; store = st; setter = f }) c.param_list;
  }

  pub find_command : Arg → List (Command S) → Option (Operation S)
  find_command name [] = none
  find_command name (cmd ∷ rest) = elim (strcmp name cmd.name) [
    | eq ↦ some cmd.operation
    | other ↦ find_command name rest
  ]

  pub find_param : Arg → List (Param S) → Option (Param S)
  find_param name [] = none
  find_param name (p ∷ rest) = elim (strcmp p.name name) [
    | eq ↦ some p
    | other ↦ find_param name rest
  ]

  unfoldable pub record_error : Console S → Console S
  record_error c =
      let n = (c.err_cnt + 1) % 2 ^ 32 in
      record c { err_cnt = n; quit_flag = c.quit_flag || int_le (c.vars err_limit) n }

  pub apply_setter : Option (ℕ → S → S) → ℕ → S → S
  apply_setter none old s = s
  apply_setter (some f) old s = f old s

  pub set_var : Param S → ℕ → Console S → Console S
  set_var p value c = record c {
    vars = λ v. if v == p.valp then value else c.vars v;
    app = apply_setter p.setter (c.vars p.valp) (p.store value c.app);
  }

  -- The helpers are called while they return true.
  run_helpers : List (Action S) → List Arg → Bool → S → Bool × S
  run_helpers [] argv ok s = (ok, s)
  run_helpers (f ∷ fs) argv ok s =
      let (ok', s') = f argv s in if ok then run_helpers fs argv ok' s' else (false, s)

  -- A second call frees the lists again.
  pub do_quit_cmd : List Arg → Console S → Outcome S
  unfolding run_helpers
  do_quit_cmd argv c =
      let (ok, s) = run_helpers c.quit_helpers argv true c.app in
      if c.freed
      then fault
      else returned ok (record c { freed = true; buf_stack = []; quit_flag = true; app = s })

-- `strtol s` is the 64-bit pattern of the number and the text behind it.
module _ (strtol : Arg → ℕ × Arg) where
  unfoldable pub get_int : Arg → Option ℕ
  get_int s =
      let (v, end) = strtol s in
      elim end [ [] ↦ if v == 2 ^ 63 then none else some (v % 2 ^ 32) | c ∷ rest ↦ none ]

-- set_logfile returns whether it could open the file.
do_log_cmd : (Arg → Bool) → List Arg → Bool
do_log_cmd set_logfile [] = false
do_log_cmd set_logfile (name ∷ rest) = set_logfile name

-- A failing command is counted.
abbrev pub counted : {S : Type 0} → Outcome S → Outcome S
counted (returned true c) = returned true c
counted (returned false c) = returned false (record_error c)
counted fault = fault
counted out_of_fuel = out_of_fuel

-- The outside of the console: strtol, open, set_logfile, and whether select says that the input can
-- be read. cmd_select hands it a set that nothing has cleared, so that it may say anything.
pub record Host : Type 0 where
  pub strtol : Arg → ℕ × Arg
  pub open_file : Arg → Option (ℕ × List (List ℕ))
  pub set_logfile : Arg → Bool
  pub input_ready : List Rio → Bool

module _ {S : Type 0} (host : Host) where
  -- The loop of do_option_cmd.
  pub option_loop : List Arg → Console S → Bool × Console S
  option_loop [] c = (true, c)
  option_loop (name ∷ []) c = (false, c)
  option_loop (name ∷ value ∷ rest) c = elim (get_int host.strtol value) [
    | none ↦ (false, c)
    | some v ↦ elim (find_param name c.param_list) [
      | none ↦ (false, c)
      | some p ↦ option_loop rest (set_var p v c)
    ]
  ]

  pub do_source_cmd : List Arg → Console S → Bool × Console S
  do_source_cmd [] c = (false, c)
  do_source_cmd (name ∷ rest) c = elim (push_file host.open_file name c.buf_stack) [
    | none ↦ (false, c)
    | some stack ↦ (true, record c { buf_stack = stack })
  ]

  abbrev pub of_pair : Bool × Console S → Outcome S
  of_pair (ok, c) = returned ok c

  abbrev run_user : Action S → List Arg → Console S → Outcome S
  run_user f argv c = let (ok, s) = f argv c.app in returned ok (record c { app = s })

  -- The functions but do_time_cmd, on the arguments behind the name; help and comment only print.
  run_operation : Operation S → Arg → List Arg → Console S → Outcome S
  unfolding do_log_cmd do_quit_cmd do_source_cmd option_loop
  run_operation help name args c = returned true c
  run_operation option name args c = of_pair (option_loop args c)
  run_operation quit name args c = do_quit_cmd (name ∷ args) c
  run_operation source name args c = of_pair (do_source_cmd args c)
  run_operation log name args c = returned (do_log_cmd host.set_logfile args) c
  run_operation time name args c = returned true c
  run_operation comment name args c = returned true c
  run_operation (user f) name args c = run_user f (name ∷ args) c

  -- do_time_cmd runs the command that its arguments are.
  pub interpret_cmda : List Arg → Console S → Outcome S
  unfolding run_operation find_command
  interpret_cmda [] c = returned true c
  interpret_cmda (name ∷ args) c = elim c.freed [
    | true ↦ fault
    | false ↦ elim (find_command name c.cmd_list) [
      | none ↦ returned false (record_error c)
      | some time ↦ counted (interpret_cmda args c)
      | some f ↦ counted (run_operation f name args c)
    ]
  ]

  -- `unset` is what malloc leaves in the buffer of parse_args.
  unfoldable pub interpret_cmd : List ℕ → List ℕ → Console S → Outcome S
  unfolding interpret_cmda parse_args
  interpret_cmd line unset c = elim c.quit_flag [
    | true ↦ returned false c
    | false ↦ elim (parse_args line unset) [ none ↦ fault | some argv ↦ interpret_cmda argv c ]
  ]
