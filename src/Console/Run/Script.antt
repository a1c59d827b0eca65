-- ===== src/Console/Run/Script.antt =====
-- The main loop never uses freed memory, a NULL line or bytes that nothing has written.
use cohere_technology_skillb.Prelude.{
  ℕ, zero, suc, ◌≡◌, refl, not, ◌&&◌, Option, none, some, List, arith, Bool-cases, inl, inr,
}
use cohere_technology_skillb.Console.Input.{Rio, readline, push_file, read_ready}
use mathlib.Core.Path.{subst}
use cohere_technology_skillb.Queue.Strings.{NoNul}
use cohere_technology_skillb.Console.Input.Clean.{
  AllClean, CleanFiles, CleanLine, readline-Clean, push_file-Clean,
}
use cohere_technology_skillb.Console.Input.Ready.{readline-ready}
use cohere_technology_skillb.Console.Interpreter.{
  Arg, Console, Outcome, returned, fault, out_of_fuel, Host, interpret_cmd,
}
use cohere_technology_skillb.Console.Interpreter.Safety.{IsSafe, EndsSafe, interpret_cmd-EndsSafe}
use cohere_technology_skillb.Console.Run.{
  and_then, read_one, select_one, cmd_done, drain, cmd_select, console_loop, run_console,
}

-- The run did not fault; if it has ended, the state is safe.
abbrev pub NoFault : {S : Type 0} → Outcome S → Type 0
NoFault (returned ok c) = IsSafe c
NoFault fault = ⊥
NoFault out_of_fuel = Unit

EndsSafe-NoFault : {S : Type 0} (r : Outcome S) → EndsSafe r → NoFault r
EndsSafe-NoFault (returned ok c) s = s
EndsSafe-NoFault fault s = s
EndsSafe-NoFault out_of_fuel s = absurd s

and_then-NoFault :
    {S : Type 0} (r : Outcome S) (k : Console S → Outcome S)
    → NoFault r
    → ((c : Console S) → IsSafe c → NoFault (k c))
    → NoFault (and_then r k)
and_then-NoFault (returned ok c) k s next = next c s
and_then-NoFault fault k s next = s
and_then-NoFault out_of_fuel k s next = tt

module _ {S : Type 0} (host : Host) (files : CleanFiles host.open_file) (unset : List ℕ) where
  drain-NoFault : (k : ℕ) (c : Console S) → IsSafe c → NoFault (drain host unset k c)
  unfolding drain
  drain-NoFault zero c s = tt
  drain-NoFault (suc k) c s = elim (Bool-cases (not c.block_flag && read_ready c.buf_stack)) [
    | inr idle ↦ rw (idle, drain) s
    | inl ready ↦
        let (line, (st', e)) = readline-ready c.buf_stack (ground arith) in
        let (z, clean) : NoNul line × AllClean st' =
          subst CleanLine e (readline-Clean c.buf_stack s.1) in
        let safe =
          interpret_cmd-EndsSafe host files c.buf_stack st' line unset
            (record c { buf_stack = st' }) e z (s.0, clean) in
        rw (ready, drain)
          (rw e (
            and_then-NoFault (interpret_cmd host line unset (record c { buf_stack = st' }))
              (drain host unset k) (EndsSafe-NoFault _ safe) (drain-NoFault k)))
  ]

  select_one-NoFault : (c : Console S) → IsSafe c → NoFault (select_one host unset c)
  unfolding select_one
  select_one-NoFault c s = elim (Bool-cases (cmd_done c)) [
    | inl over ↦ rw (over, select_one) s
    | inr more ↦ elim (Bool-cases c.block_flag) [
      | inl blocked ↦ rw (more, select_one) (rw blocked s)
      | inr free ↦ elim (Bool-cases (host.input_ready c.buf_stack)) [
        | inl input ↦ rw (more, select_one) (rw free (rw input (by (readline c.buf_stack) refl)))
        | inr none_yet ↦ rw (more, select_one) (rw free (rw none_yet s))
      ]
    ]
  ]
    where
      by :
          (r : Option (List ℕ) × List Rio)
          → readline c.buf_stack ≡ r
          → NoFault (read_one host unset (readline c.buf_stack) c)
      by (none, st) e = rw e (s.0, subst CleanLine e (readline-Clean c.buf_stack s.1))
      by (some line, st) e =
          let (z, clean) : NoNul line × AllClean st =
            subst CleanLine e (readline-Clean c.buf_stack s.1) in
          rw e (
            EndsSafe-NoFault _ (
              interpret_cmd-EndsSafe host files c.buf_stack st line unset
                (record c { buf_stack = st }) e z (s.0, clean)))

  console_loop-NoFault :
      (n k : ℕ) (c : Console S) → IsSafe c → NoFault (console_loop host unset n k c)
  unfolding console_loop cmd_select
  console_loop-NoFault zero k c s = tt
  console_loop-NoFault (suc n) k c s = elim (Bool-cases (cmd_done c)) [
    | inl over ↦ rw (over, console_loop) s
    | inr more ↦
        rw (more, console_loop)
          (and_then-NoFault (cmd_select host unset k c) (console_loop host unset n k)
            (and_then-NoFault (drain host unset k c) (select_one host unset) (drain-NoFault k c s)
              select_one-NoFault)
            (console_loop-NoFault n k))
  ]

  -- Where no file that can be opened has a NUL, and from a safe state (once the lists have been freed
  -- the program has quit, and the files that are open have no NUL): however long it runs,
  -- run_console never uses an element of the lists that do_quit_cmd has freed, never interprets a
  -- NULL line and never splits a line past what it has written, whatever the program's own commands,
  -- the rest of the input and the outside do; if it ends, it leaves a safe state.
  pub run_console-NoFault :
      (n k : ℕ) (name : Arg) (c : Console S)
      → IsSafe c
      → NoFault (run_console host unset n k name c)
  unfolding run_console
  run_console-NoFault n k name c s = by (push_file host.open_file name c.buf_stack) refl
    where
      by :
          (r : Option (List Rio))
          → push_file host.open_file name c.buf_stack ≡ r
          → NoFault (run_console host unset n k name c)
      by none e = rw (e, run_console) s
      by (some st) e =
          rw (e, run_console)
            (console_loop-NoFault n k (record c { buf_stack = st })
              (s.0, push_file-Clean host.open_file name c.buf_stack st files s.1 e))
