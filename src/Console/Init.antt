-- ===== src/Console/Init.antt =====
-- init_cmd, and the other functions by which a program sets up the console.
use cohere_technology_skillb.Prelude.{
  ℕ, Bool, false, Option, none, some, [], ◌∷◌, ◌++◌, length, ltb, ◌==◌, if◌then◌else◌,
}
use cohere_technology_skillb.Content.Strcmp.{strcmp}
use cohere_technology_skillb.Console.Interpreter.{
  Action, help, option, quit, source, log, time, comment, Console, verblevel, err_limit, echo,
  add_cmd, add_param,
}
use cohere_technology_skillb.Console.Interpreter.Table.{IsOrdered}

module _ {S : Type 0} where
  -- The console before the first call: only the variables and the helpers are kept.
  abbrev cleared : Console S → Console S
  cleared c = record c {
    cmd_list = [];
    param_list = [];
    freed = false;
    err_cnt = 0;
    quit_flag = false;
    buf_stack = [];
  }

  -- `store` is a write to verblevel, which the program's own commands read.
  pub init_cmd : (ℕ → S → S) → Console S → Console S
  init_cmd store c =
      let c = cleared c in
      let c = add_cmd (b'h' ∷ b'e' ∷ b'l' ∷ b'p' ∷ []) help c in
      let c = add_cmd (b'o' ∷ b'p' ∷ b't' ∷ b'i' ∷ b'o' ∷ b'n' ∷ []) option c in
      let c = add_cmd (b'q' ∷ b'u' ∷ b'i' ∷ b't' ∷ []) quit c in
      let c = add_cmd (b's' ∷ b'o' ∷ b'u' ∷ b'r' ∷ b'c' ∷ b'e' ∷ []) source c in
      let c = add_cmd (b'l' ∷ b'o' ∷ b'g' ∷ []) log c in
      let c = add_cmd (b't' ∷ b'i' ∷ b'm' ∷ b'e' ∷ []) time c in
      let c = add_cmd (b'#' ∷ []) comment c in
      let c =
        add_param (b'v' ∷ b'e' ∷ b'r' ∷ b'b' ∷ b'o' ∷ b's' ∷ b'e' ∷ []) verblevel store none c in
      let c = add_param (b'e' ∷ b'r' ∷ b'r' ∷ b'o' ∷ b'r' ∷ []) err_limit (λ v s. s) none c in
      add_param (b'e' ∷ b'c' ∷ b'h' ∷ b'o' ∷ []) echo (λ v s. s) none c

  -- `none` is the end of the process; the array has ten places.
  pub add_quit_helper : Action S → Console S → Option (Console S)
  add_quit_helper f c =
      if ltb (length c.quit_helpers) 10
      then some (record c { quit_helpers = c.quit_helpers ++ (f ∷ []) })
      else none

  pub set_echo : Bool → Console S → Console S
  set_echo on c = record c { vars = λ v. if v == echo then (if on then 1 else 0) else c.vars v }

  -- init_cmd leaves the list of commands in alphabetical order.
  pub init_cmd-IsOrdered :
      (store : ℕ → S → S) (c : Console S) → IsOrdered (init_cmd store c).cmd_list
  unfolding init_cmd add_cmd add_param strcmp
  init_cmd-IsOrdered store c =
      ((λ e. cc e), ((λ e. cc e), ((λ e. cc e), ((λ e. cc e), ((λ e. cc e), ((λ e. cc e), tt))))))
