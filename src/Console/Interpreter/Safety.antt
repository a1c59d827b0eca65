-- ===== src/Console/Interpreter/Safety.antt =====
-- After do_quit_cmd no command is looked up.
use cohere_technology_skillb.Prelude.{
  ℕ, ◌≡◌, refl, sym, ◌∙◌, true, false, Option, none, some, List, [], ◌∷◌, Bool-cases, inl, inr,
}
use mathlib.Core.Path.{subst}
use cohere_technology_skillb.Queue.Strings.{NoNul}
use cohere_technology_skillb.Console.Input.{Rio, readline, push_file}
use cohere_technology_skillb.Console.Input.Clean.{AllClean, CleanFiles, push_file-Clean}
use cohere_technology_skillb.Console.Total.{parse_args-readline}
use cohere_technology_skillb.Console.Interpreter.Fields.{option_loop-keeps, do_source_cmd-keeps}
use cohere_technology_skillb.Console.Interpreter.{
  Arg, Operation, help, option, quit, source, log, time, comment, user, Console, Outcome, returned,
  fault, out_of_fuel, Host, find_command, record_error, set_var, do_quit_cmd, option_loop,
  do_source_cmd, counted, run_operation, interpret_cmda, interpret_cmd,
}

-- Once the lists have been freed the program has quit, and no NUL is in the input that has been
-- opened.
abbrev pub IsSafe : {S : Type 0} → Console S → Type 0
IsSafe c = (c.freed ≡ true → c.quit_flag ≡ true) × AllClean c.buf_stack

-- The call returned, in a safe state.
abbrev pub EndsSafe : {S : Type 0} → Outcome S → Type 0
EndsSafe (returned ok c) = IsSafe c
EndsSafe fault = ⊥
EndsSafe out_of_fuel = ⊥

record_error-IsSafe : {S : Type 0} (c : Console S) → IsSafe c → IsSafe (record_error c)
unfolding record_error
record_error-IsSafe c s = (λ freed. rw (s.0 freed), s.1)

counted-EndsSafe : {S : Type 0} (r : Outcome S) → EndsSafe r → EndsSafe (counted r)
counted-EndsSafe (returned true c) s = s
counted-EndsSafe (returned false c) s = record_error-IsSafe c s
counted-EndsSafe fault s = s
counted-EndsSafe out_of_fuel s = s

module _ {S : Type 0} (host : Host) (files : CleanFiles host.open_file) where
  -- A state that has not been freed is safe.
  live-IsSafe : (c : Console S) → c.freed ≡ false → AllClean c.buf_stack → IsSafe c
  live-IsSafe c live clean = (λ freed. absurd (cc), clean)

  do_source_cmd-Clean :
      (args : List Arg) (c : Console S)
      → AllClean c.buf_stack
      → AllClean (do_source_cmd host args c).1.buf_stack
  unfolding do_source_cmd
  do_source_cmd-Clean [] c clean = clean
  do_source_cmd-Clean (name ∷ rest) c clean = by (push_file host.open_file name c.buf_stack) refl
    where
      by :
          (r : Option (List Rio))
          → push_file host.open_file name c.buf_stack ≡ r
          → AllClean (do_source_cmd host (name ∷ rest) c).1.buf_stack
      by none e = rw (e, do_source_cmd) clean
      by (some st) e =
          rw (e, do_source_cmd) (push_file-Clean host.open_file name c.buf_stack st files clean e)

  run_operation-EndsSafe :
      (f : Operation S) (name : Arg) (args : List Arg) (c : Console S)
      → c.freed ≡ false
      → AllClean c.buf_stack
      → EndsSafe (run_operation host f name args c)
  unfolding run_operation do_quit_cmd set_var
  run_operation-EndsSafe help name args c live clean = live-IsSafe c live clean
  run_operation-EndsSafe option name args c live clean =
      live-IsSafe (option_loop host args c).1
        (option_loop-keeps host (λ d. d.freed) (λ p v d. refl) args c ∙ live)
        (subst AllClean (sym (option_loop-keeps host (λ d. d.buf_stack) (λ p v d. refl) args c))
          clean)
  run_operation-EndsSafe quit name args c live clean = rw live (λ e. refl, tt)
  run_operation-EndsSafe source name args c live clean =
      live-IsSafe (do_source_cmd host args c).1
        (do_source_cmd-keeps host (λ d. d.freed) (λ st d. refl) args c ∙ live)
        (do_source_cmd-Clean args c clean)
  run_operation-EndsSafe log name args c live clean = live-IsSafe c live clean
  run_operation-EndsSafe time name args c live clean = live-IsSafe c live clean
  run_operation-EndsSafe comment name args c live clean = live-IsSafe c live clean
  run_operation-EndsSafe (user f) name args c live clean =
      (λ freed. absurd (cc (freed, live)), clean)

  interpret_cmda-EndsSafe :
      (argv : List Arg) (c : Console S)
      → c.freed ≡ false
      → AllClean c.buf_stack
      → EndsSafe (interpret_cmda host argv c)
  unfolding interpret_cmda
  interpret_cmda-EndsSafe [] c live clean = live-IsSafe c live clean
  interpret_cmda-EndsSafe (name ∷ args) c live clean =
      by (find_command name c.cmd_list) refl (interpret_cmda-EndsSafe args c live clean)
    where
      by :
          (r : Option (Operation S))
          → find_command name c.cmd_list ≡ r
          → EndsSafe (interpret_cmda host args c)
          → EndsSafe (interpret_cmda host (name ∷ args) c)
      by none e ih =
          rw (live, interpret_cmda) (rw e (record_error-IsSafe c (live-IsSafe c live clean)))
      by (some time) e ih = rw (live, interpret_cmda) (rw e (counted-EndsSafe _ ih))
      by (some f) e ih =
          rw (live, interpret_cmda)
            (rw e (
              counted-EndsSafe (run_operation host f name args c)
                (run_operation-EndsSafe f name args c live clean)))

  -- If no file that can be opened has a NUL: in a safe state (once the lists have been freed the
  -- program has quit, and the files that are open have no NUL), a line without a NUL that readline
  -- has returned is interpreted without a use of a freed element or a read past what parse_args has
  -- written, and leaves a safe state, whatever the program's own commands do.
  pub interpret_cmd-EndsSafe :
      (st st' : List Rio) (line unset : List ℕ) (c : Console S)
      → readline st ≡ (some line, st')
      → NoNul line
      → IsSafe c
      → EndsSafe (interpret_cmd host line unset c)
  unfolding interpret_cmd
  interpret_cmd-EndsSafe st st' line unset c e z safe = elim (Bool-cases c.quit_flag) [
    | inl over ↦ rw (over, interpret_cmd) safe
    | inr running ↦
        let (argv, split) = parse_args-readline st st' line unset e z in
        let live : c.freed ≡ false = elim (Bool-cases c.freed) [
          | inl f ↦ cc (safe.0 f)
          | inr f ↦ f
        ] in
        rw (running, interpret_cmd) (rw split (interpret_cmda-EndsSafe argv c live safe.1))
  ]
