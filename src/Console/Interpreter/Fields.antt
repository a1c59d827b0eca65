-- ===== src/Console/Interpreter/Fields.antt =====
-- What the option and source commands leave alone.
use cohere_technology_skillb.Prelude.{ℕ, ◌≡◌, ◌∙◌, refl, Option, none, some, List, [], ◌∷◌}
use cohere_technology_skillb.Console.Input.{Rio, push_file}
use cohere_technology_skillb.Console.Interpreter.{
  Arg, Param, Console, Host, find_param, get_int, set_var, option_loop, do_source_cmd,
}

module _ {S A : Type 0} (host : Host) (field : Console S → A) where
  pub option_loop-keeps :
      ((p : Param S) (v : ℕ) (d : Console S) → field (set_var p v d) ≡ field d)
      → (args : List Arg) (c : Console S) → field (option_loop host args c).1 ≡ field c
  unfolding option_loop
  option_loop-keeps keeps [] c = refl
  option_loop-keeps keeps (name ∷ []) c = refl
  option_loop-keeps keeps (name ∷ value ∷ rest) c =
      by (get_int host.strtol value) refl
        λ p v. option_loop-keeps keeps rest (set_var p v c) ∙ keeps p v c
    where
      by :
          (r : Option ℕ)
          → get_int host.strtol value ≡ r
          → ((p : Param S) (v : ℕ) → field (option_loop host rest (set_var p v c)).1 ≡ field c)
          → field (option_loop host (name ∷ value ∷ rest) c).1 ≡ field c
      by none e ih = rw (e, option_loop)
      by (some v) e ih = found (find_param name c.param_list) refl
        where
          found :
              (q : Option (Param S))
              → find_param name c.param_list ≡ q
              → field (option_loop host (name ∷ value ∷ rest) c).1 ≡ field c
          found none e' = rw (e, option_loop) (rw e')
          found (some p) e' = rw (e, option_loop) (rw e' (ih p v))

  pub do_source_cmd-keeps :
      ((stack : List Rio) (d : Console S) → field (record d { buf_stack = stack }) ≡ field d)
      → (args : List Arg) (c : Console S) → field (do_source_cmd host args c).1 ≡ field c
  unfolding do_source_cmd
  do_source_cmd-keeps keeps [] c = refl
  do_source_cmd-keeps keeps (name ∷ rest) c = by (push_file host.open_file name c.buf_stack) refl
    where
      by :
          (r : Option (List Rio))
          → push_file host.open_file name c.buf_stack ≡ r
          → field (do_source_cmd host (name ∷ rest) c).1 ≡ field c
      by none e = rw (e, do_source_cmd)
      by (some stack) e = rw (e, do_source_cmd) (keeps stack c)
