-- ===== src/Console/Interpreter/Errors.antt =====
-- The count of errors.
use cohere_technology_skillb.Prelude.{
  ℕ, suc, ◌+◌, ◌%◌, ◌^◌, ◌≤◌, ◌<◌, ◌≡◌, refl, Bool, true, false, ◌||◌, Option, none, some, List, [],
  ◌∷◌, arith, length, Bool-cases, inl, inr,
}
use cohere_technology_skillb.Console.Interpreter.Fields.{option_loop-keeps, do_source_cmd-keeps}
use cohere_technology_skillb.Console.Interpreter.{
  Arg, Operation, help, option, quit, source, log, time, comment, user, Console, Outcome, returned,
  fault, out_of_fuel, Host, err_limit, int_le, find_command, record_error, set_var, do_quit_cmd,
  counted, run_operation, interpret_cmda,
}

-- A call that returns true has counted no error; one that returns false has counted at least one
-- and at most `n`, and the program has quit if the limit is reached.
abbrev pub Counts : {S : Type 0} → Console S → ℕ → Outcome S → Type 0
Counts c n (returned true c') = c'.err_cnt ≡ c.err_cnt
Counts c n (returned false c') =
    (c.err_cnt < c'.err_cnt)
    × ((c'.err_cnt ≤ c.err_cnt + n)
        × (int_le (c'.vars err_limit) c'.err_cnt ≡ true → c'.quit_flag ≡ true))
Counts c n fault = Unit
Counts c n out_of_fuel = Unit

-- A call that has counted at most `n` errors.
abbrev AtMost : {S : Type 0} → Console S → ℕ → Outcome S → Type 0
AtMost c n (returned true c') = c'.err_cnt ≡ c.err_cnt
AtMost c n (returned false c') = (c.err_cnt ≤ c'.err_cnt) × (c'.err_cnt ≤ c.err_cnt + n)
AtMost c n fault = Unit
AtMost c n out_of_fuel = Unit

or_true : (b : Bool) → (b || true) ≡ true
or_true true = refl
or_true false = refl

module _ {S : Type 0} (c : Console S) where
  record_error-Counts :
      (n : ℕ) (c' : Console S)
      → c.err_cnt ≤ c'.err_cnt
      → c'.err_cnt ≤ c.err_cnt + n
      → c.err_cnt + suc n < 2 ^ 31
      → Counts c (suc n) (returned false (record_error c'))
  unfolding record_error
  record_error-Counts n c' low high small =
      let next : (c'.err_cnt + 1) % 2 ^ 32 ≡ c'.err_cnt + 1 = omega arith in
      (omega arith, (omega arith, λ reached. rw reached (or_true c'.quit_flag)))

  counted-Counts :
      (n : ℕ) (r : Outcome S)
      → AtMost c n r
      → c.err_cnt + suc n < 2 ^ 31
      → Counts c (suc n) (counted r)
  counted-Counts n (returned true c') m small = m
  counted-Counts n (returned false c') m small = record_error-Counts n c' m.0 m.1 small
  counted-Counts n fault m small = tt
  counted-Counts n out_of_fuel m small = tt

  at_most : (n : ℕ) (r : Outcome S) → Counts c n r → AtMost c n r
  at_most n (returned true c') m = m
  at_most n (returned false c') m = (omega (arith, m.0), m.1.0)
  at_most n fault m = tt
  at_most n out_of_fuel m = tt

-- The outcome leaves the count alone.
abbrev Keeps : {S : Type 0} → Console S → Outcome S → Type 0
Keeps c (returned ok c') = c'.err_cnt ≡ c.err_cnt
Keeps c fault = Unit
Keeps c out_of_fuel = Unit

Keeps-AtMost : {S : Type 0} (c : Console S) (r : Outcome S) → Keeps c r → AtMost c 0 r
Keeps-AtMost c (returned true c') k = k
Keeps-AtMost c (returned false c') k = (omega arith, omega arith)
Keeps-AtMost c fault k = tt
Keeps-AtMost c out_of_fuel k = tt

module _ {S : Type 0} (host : Host) where
  run_operation-Keeps :
      (f : Operation S) (name : Arg) (args : List Arg) (c : Console S)
      → Keeps c (run_operation host f name args c)
  unfolding run_operation do_quit_cmd set_var
  run_operation-Keeps help name args c = refl
  run_operation-Keeps option name args c =
      option_loop-keeps host (λ d. d.err_cnt) (λ p v d. refl) args c
  run_operation-Keeps quit name args c = elim (Bool-cases c.freed) [
    | inl freed ↦ rw freed tt
    | inr live ↦ rw live
  ]
  run_operation-Keeps source name args c =
      do_source_cmd-keeps host (λ d. d.err_cnt) (λ st d. refl) args c
  run_operation-Keeps log name args c = refl
  run_operation-Keeps time name args c = refl
  run_operation-Keeps comment name args c = refl
  run_operation-Keeps (user f) name args c = refl

  -- Below 2 ^ 31 errors, a command line that succeeds counts no error, and one that fails counts at
  -- least one and at most one for each of its words; when the limit is reached the program quits.
  pub interpret_cmda-Counts :
      (argv : List Arg) (c : Console S)
      → c.err_cnt + length argv < 2 ^ 31
      → Counts c (length argv) (interpret_cmda host argv c)
  unfolding interpret_cmda
  interpret_cmda-Counts [] c small = refl
  interpret_cmda-Counts (name ∷ args) c small =
      let ih = interpret_cmda-Counts args c (omega arith) in
      elim (Bool-cases c.freed) [
        | inl freed ↦ rw (freed, interpret_cmda) tt
        | inr live ↦ by live (find_command name c.cmd_list) refl ih
      ]
    where
      weaken : (r : Outcome S) → Counts c 1 (counted r) → Counts c (suc (length args)) (counted r)
      weaken (returned true c') k = k
      weaken (returned false c') k = (k.0, (omega (arith, k.1.0), k.1.1))
      weaken fault k = tt
      weaken out_of_fuel k = tt

      by :
          c.freed ≡ false
          → (r : Option (Operation S)) → find_command name c.cmd_list ≡ r
          → Counts c (length args) (interpret_cmda host args c)
          → Counts c (suc (length args)) (interpret_cmda host (name ∷ args) c)
      by live none e ih =
          rw (live, interpret_cmda)
            (rw e (
              weaken (returned false c)
                (record_error-Counts c 0 c (omega arith) (omega arith) (omega arith))))
      by live (some time) e ih =
          rw (live, interpret_cmda)
            (rw e (
              counted-Counts c (length args) _
                (at_most c (length args) (interpret_cmda host args c) ih) small))
      by live (some f) e ih =
          let keeps =
            Keeps-AtMost c (run_operation host f name args c) (run_operation-Keeps f name args c) in
          rw (live, interpret_cmda)
            (rw e (
              weaken (run_operation host f name args c)
                (counted-Counts c 0 (run_operation host f name args c) keeps (omega arith))))
