-- ===== src/Console/Interpreter/Table.antt =====
-- The list of commands: its order, and what a lookup finds after add_cmd.
use cohere_technology_skillb.Prelude.{
  ℕ, ◌≡◌, ◌≢◌, refl, sym, ap, ◌∙◌, Bool, true, false, some, List, [], ◌∷◌, arith, if◌then◌else◌,
  ◌⊎◌, inl, inr,
}
use mathlib.Core.Path.{subst}
use cohere_technology_skillb.Content.Strcmp.{Sign, strcmp, lt, eq, gt, eq_of_strcmp}
use cohere_technology_skillb.Console.Interpreter.{
  Arg, Operation, Command, Console, insert_command, add_cmd, find_command,
}

Sign-cases : (s : Sign) → (s ≡ lt) ⊎ (s ≡ eq) ⊎ (s ≡ gt)
Sign-cases lt = inl refl
Sign-cases eq = inr (inl refl)
Sign-cases gt = inr (inr refl)

abbrev pub same : Sign → Bool
same eq = true
same _ = false

strcmp_flip : (s t : List ℕ) → strcmp s t ≡ gt → strcmp t s ≡ lt
unfolding strcmp
strcmp_flip [] [] e = cc
strcmp_flip [] (b ∷ t) e = cc
strcmp_flip (a ∷ s) [] e = refl
strcmp_flip (a ∷ s) (b ∷ t) e = ground (arith, strcmp_flip s t)

-- The names do not fall from one element to the next.
abbrev pub IsOrdered : {S : Type 0} → List (Command S) → Type 0
IsOrdered [] = Unit
IsOrdered (x ∷ []) = Unit
IsOrdered (x ∷ y ∷ rest) = (strcmp x.name y.name ≢ gt) × IsOrdered (y ∷ rest)

module _ {S : Type 0} (ele x : Command S) (xs : List (Command S)) where
  insert_command-before : strcmp ele.name x.name ≢ gt → insert_command ele (x ∷ xs) ≡ ele ∷ x ∷ xs
  unfolding insert_command
  insert_command-before ne = elim (Sign-cases (strcmp ele.name x.name)) [
    | inl s ↦ rw (s, insert_command)
    | inr (inl s) ↦ rw (s, insert_command)
    | inr (inr s) ↦ absurd (ne s)
  ]

  insert_command-behind :
      strcmp ele.name x.name ≡ gt → insert_command ele (x ∷ xs) ≡ x ∷ insert_command ele xs
  unfolding insert_command
  insert_command-behind s = rw (s, insert_command)

module _ {S : Type 0} (x : Command S) (xs : List (Command S)) where
  find_command-cons :
      (n : Arg)
      → find_command n (x ∷ xs)
        ≡ (if same (strcmp n x.name) then some x.operation else find_command n xs)
  unfolding find_command
  find_command-cons n = elim (Sign-cases (strcmp n x.name)) [
    | inl s ↦ rw (s, find_command)
    | inr (inl s) ↦ rw (s, find_command)
    | inr (inr s) ↦ rw (s, find_command)
  ]

gt-cases : (s : Sign) → (s ≡ gt) ⊎ (s ≢ gt)
gt-cases lt = inr (λ e. cc e)
gt-cases eq = inr (λ e. cc e)
gt-cases gt = inl refl

module _ {S : Type 0} (ele : Command S) where
  after-IsOrdered :
      (x : Command S) (xs : List (Command S))
      → strcmp ele.name x.name ≡ gt
      → IsOrdered (x ∷ xs)
      → IsOrdered (x ∷ insert_command ele xs)
  unfolding insert_command
  after-IsOrdered x [] e o = let flip = strcmp_flip ele.name x.name e in ((λ g. cc (flip, g)), tt)
  after-IsOrdered x (y ∷ rest) e o =
      let flip = strcmp_flip ele.name x.name e in
      let step = after-IsOrdered y rest in
      elim (gt-cases (strcmp ele.name y.name)) [
        | inr ne ↦
            subst (λ l. IsOrdered (x ∷ l)) (sym (insert_command-before ele y rest ne))
              ((λ g. cc (flip, g)), (ne, o.1))
        | inl s ↦
            subst (λ l. IsOrdered (x ∷ l)) (sym (insert_command-behind ele y rest s))
              (o.0, step s o.1)
      ]

  insert_command-IsOrdered :
      (xs : List (Command S)) → IsOrdered xs → IsOrdered (insert_command ele xs)
  unfolding insert_command
  insert_command-IsOrdered [] o = tt
  insert_command-IsOrdered (x ∷ xs) o = elim (gt-cases (strcmp ele.name x.name)) [
    | inr ne ↦ subst IsOrdered (sym (insert_command-before ele x xs ne)) (ne, o)
    | inl s ↦ subst IsOrdered (sym (insert_command-behind ele x xs s)) (after-IsOrdered x xs s o)
  ]

  -- No name is that of `x` and that of an element behind which `x` does not stand.
  not_both :
      (n : Arg) (x : Command S)
      → strcmp ele.name x.name ≡ gt
      → strcmp n x.name ≡ eq
      → same (strcmp n ele.name) ≡ false
  not_both n x s e =
      let is = eq_of_strcmp n x.name e in
      let flip = strcmp_flip ele.name x.name s in rw is (rw flip)

  find_command-insert_command :
      (n : Arg) (xs : List (Command S))
      → find_command n (insert_command ele xs)
        ≡ (if same (strcmp n ele.name) then some ele.operation else find_command n xs)
  unfolding insert_command
  find_command-insert_command n [] = find_command-cons ele [] n
  find_command-insert_command n (x ∷ xs) =
      let ih = find_command-insert_command n xs in
      elim (gt-cases (strcmp ele.name x.name)) [
        | inr ne ↦
            ap (find_command n) (insert_command-before ele x xs ne)
            ∙ find_command-cons ele (x ∷ xs) n
        | inl s ↦
            ap (find_command n) (insert_command-behind ele x xs s)
            ∙ find_command-cons x (insert_command ele xs) n
            ∙ elim (Sign-cases (strcmp n x.name)) [
              | inl t ↦ rw t (rw (find_command-cons x xs n) (rw t ih))
              | inr (inl t) ↦ rw t (rw (find_command-cons x xs n) (rw (not_both n x s t) (rw t)))
              | inr (inr t) ↦ rw t (rw (find_command-cons x xs n) (rw t ih))
            ]
      ]

-- add_cmd keeps the list of commands in alphabetical order, and makes the new operation the one that
-- its name finds, where every other name finds what it found before.
pub add_cmd-find_command :
    {S : Type 0} (name : Arg) (f : Operation S) (c : Console S)
    → IsOrdered c.cmd_list
    → IsOrdered (add_cmd name f c).cmd_list
      × ((n : Arg)
          → find_command n (add_cmd name f c).cmd_list
            ≡ (if same (strcmp n name) then some f else find_command n c.cmd_list))
unfolding add_cmd
add_cmd-find_command name f c o = (
  insert_command-IsOrdered (record { name = name; operation = f }) c.cmd_list o,
  λ n. find_command-insert_command (record { name = name; operation = f }) n c.cmd_list,
)
