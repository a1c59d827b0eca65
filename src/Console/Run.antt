-- ===== src/Console/Run.antt =====
-- The main loop of console.c: cmd_select with no network descriptors, and run_console.
pub mod Script
use cohere_technology_skillb.Prelude.{
  ℕ, zero, suc, Bool, true, false, not, ◌&&◌, Option, none, some, List, [], ◌∷◌, ◌==◌,
}
use cohere_technology_skillb.Console.Input.{Rio, push_file, readline, read_ready}
use cohere_technology_skillb.Console.Interpreter.{
  Arg, Host, Console, Outcome, returned, fault, out_of_fuel, do_quit_cmd, interpret_cmd,
}

abbrev and_then : {S : Type 0} → Outcome S → (Console S → Outcome S) → Outcome S
and_then (returned ok c) k = k c
and_then fault k = fault
and_then out_of_fuel k = out_of_fuel

pub cmd_done : {S : Type 0} → Console S → Bool
cmd_done c = elim c.buf_stack [ [] ↦ true | r ∷ stack ↦ c.quit_flag ]

-- `unset` is what malloc leaves in the buffer of parse_args.
module _ {S : Type 0} (host : Host) (unset : List ℕ) where
  -- interpret_cmd of what readline returns; strlen of NULL is undefined.
  abbrev next_line : Option (List ℕ) × List Rio → Console S → Outcome S
  next_line (none, stack) c = fault
  next_line (some line, stack) c = interpret_cmd host line unset (record c { buf_stack = stack })

  -- The first loop of cmd_select, over the lines that are in the buffer.
  drain : ℕ → Console S → Outcome S
  unfolding readline read_ready interpret_cmd
  drain zero c = out_of_fuel
  drain (suc k) c = elim (not c.block_flag && read_ready c.buf_stack) [
    | false ↦ returned true c
    | true ↦ and_then (next_line (readline c.buf_stack) c) (drain k)
  ]

  -- The end of cmd_select, where select says that the input can be read.
  abbrev read_one : Option (List ℕ) × List Rio → Console S → Outcome S
  read_one (none, stack) c = returned true (record c { buf_stack = stack })
  read_one (some line, stack) c = interpret_cmd host line unset (record c { buf_stack = stack })

  select_one : Console S → Outcome S
  unfolding cmd_done readline interpret_cmd
  select_one c = elim (cmd_done c) [
    | true ↦ returned true c
    | false ↦ elim c.block_flag [
      | true ↦ returned true c
      | false ↦ elim (host.input_ready c.buf_stack) [
        | true ↦ read_one (readline c.buf_stack) c
        | false ↦ returned true c
      ]
    ]
  ]

  -- `k` bounds the lines in the buffer.
  pub cmd_select : ℕ → Console S → Outcome S
  unfolding drain select_one
  cmd_select k c = and_then (drain k c) select_one

  pub console_loop : ℕ → ℕ → Console S → Outcome S
  unfolding cmd_select cmd_done
  console_loop zero k c = out_of_fuel
  console_loop (suc n) k c = elim (cmd_done c) [
    | true ↦ returned (c.err_cnt == 0) c
    | false ↦ and_then (cmd_select k c) (console_loop n k)
  ]

  unfoldable pub run_console : ℕ → ℕ → Arg → Console S → Outcome S
  unfolding console_loop push_file
  run_console n k name c = elim (push_file host.open_file name c.buf_stack) [
    | none ↦ returned false c
    | some stack ↦ console_loop n k (record c { buf_stack = stack })
  ]

-- Where the program has not quit, finish_cmd runs do_quit_cmd with no arguments.
abbrev without_errors : {S : Type 0} → Outcome S → Outcome S
without_errors (returned ok c) = returned (ok && (c.err_cnt == 0)) c
without_errors fault = fault
without_errors out_of_fuel = out_of_fuel

pub finish_cmd : {S : Type 0} → Console S → Outcome S
finish_cmd c =
    without_errors (elim c.quit_flag [ true ↦ returned true c | false ↦ do_quit_cmd [] c ])
