-- ===== src/Content/Load.antt =====
-- content_init of content.c: the table that the lines of the file describe.
use mathlib.Core.Option
use cohere_technology_skillb.Prelude.{
  ℕ, suc, ◌+◌, ◌*◌, ◌^◌, ◌<◌, true, ltb, Bool-cases, inl, inr, ◌≡◌, ◌≢◌, refl, sym, ap, ◌∙◌, Option,
  none, some, List, [], ◌∷◌, ◌++◌, arith, lt→ltb, length, length-append, get_elem?, ◌==◌, ◌↔◌,
  get_elem?-lt,
}
use cohere_technology_skillb.Queue.Strings.{c_string}
use mathlib.Core.List.{append-nil, append_assoc}
use cohere_technology_skillb.Content.{
  Item, item, Offsets, rewind, Lookup, found, missing, parse_line, Table, loaded, exit_failure,
  init_loop, content_init, content_get,
}
use cohere_technology_skillb.Content.Search.{IsSorted, Answers, content_get-Answers}

-- No line is empty or begins with a NUL.
abbrev pub AreLines : List (List ℕ) → Type 0
AreLines [] = Unit
AreLines (l ∷ ls) = (c_string l ≢ []) × AreLines ls

module _ (open_file : ℕ → Option (List ℕ) → Option ℕ) where
  -- The items of the lines from the n-th on, if every path can be opened.
  unfoldable pub entries : ℕ → List (List ℕ) → Option (List Item)
  entries n [] = some []
  entries n (l ∷ ls) = elim (open_file n (parse_line l).1) [
    | none ↦ none
    | some fd ↦ Option.map (λ items. item (parse_line l).0 fd ∷ items) (entries (n + 1) ls)
  ]

  abbrev pub outcome : List Item → Option (List Item) → Table
  outcome items none = exit_failure
  outcome items (some more) = loaded (items ++ more)

  init_loop-entries :
      (lines : List (List ℕ)) (capacity : ℕ) (items : List Item)
      → AreLines lines
      → length items < capacity
      → length items + length lines < 2 ^ 30
      → init_loop open_file lines capacity items ≡ outcome items (entries (length items) lines)
  unfolding init_loop entries
  init_loop-entries [] capacity items ok room few = ap loaded (sym (append-nil items))
  init_loop-entries (l ∷ lines) capacity items ok room few =
      by (c_string l) refl (open_file (length items) (parse_line l).1) refl λ fd k small.
        init_loop-entries lines k (items ++ (item (parse_line l).0 fd ∷ [])) ok.1
          (omega (arith, small, length-append items (item (parse_line l).0 fd ∷ [])))
          (omega (arith, few, length-append items (item (parse_line l).0 fd ∷ [])))
        ∙ ap (λ n. outcome (items ++ (item (parse_line l).0 fd ∷ [])) (entries n lines))
            (length-append items (item (parse_line l).0 fd ∷ []))
    where
      new : ℕ → Item
      new fd = item (parse_line l).0 fd

      extended :
          (fd : ℕ) (r : Option (List Item))
          → outcome (items ++ (new fd ∷ [])) r
            ≡ outcome items (Option.map (λ more. new fd ∷ more) r)
      extended fd none = refl
      extended fd (some more) = ap loaded (append_assoc items (new fd ∷ []) more)

      by :
          (s : List ℕ)
          → c_string l ≡ s
          → (fd : Option ℕ) → open_file (length items) (parse_line l).1 ≡ fd
          → ((n k : ℕ)
              → length items + 1 < k
              → init_loop open_file lines k (items ++ (new n ∷ []))
                ≡ outcome (items ++ (new n ∷ [])) (entries (length items + 1) lines))
          → init_loop open_file (l ∷ lines) capacity items
            ≡ outcome items (entries (length items) (l ∷ lines))
      by [] z fd e ih = absurd (ok.0 z)
      by (c ∷ s) z none e ih = rw (init_loop, entries, z, e) (rw (lt→ltb _ _ room))
      by (c ∷ s) z (some fd) e ih =
          rw (init_loop, entries, z, e)
            (rw (lt→ltb _ _ room) (elim (Bool-cases (suc (length items) == capacity)) [
              | inr other ↦ rw other (
                  ih fd capacity (ground (arith, room, other))
                  ∙ extended fd (entries (length items + 1) lines))
              | inl full ↦
                  let fits : ltb (capacity * 2) (2 ^ 31) ≡ true = ground (arith, full, few) in
                  rw (full, fits)
                    (ih fd (capacity * 2) (ground (arith, full))
                      ∙ extended fd (entries (length items + 1) lines))
            ]))

abbrev pub Occurs : Item → List Item → Type 0
Occurs x xs = (i : ℕ) × (get_elem? xs i ≡ some x)

-- What qsort is documented to do to the list `items`.
pub record Sorts (qsort : List Item → List Item) (items : List Item) : Type 0 where
  pub sorted : IsSorted (qsort items)
  pub keeps : (x : Item) → Occurs x (qsort items) ↔ Occurs x items

-- The right answer to a lookup among the items `items`.
abbrev pub Right : List Item → List ℕ → Offsets → Lookup → Type 0
Right items key o (found fd o') = Occurs (item key fd) items × (o' ≡ rewind fd o)
Right items key o (missing o') = (o' ≡ o) × ((x : Item) → Occurs x items → x.key ≢ key)
Right items key o Lookup.fault = ⊥
Right items key o Lookup.out_of_fuel = ⊥

Answers-Right :
    (items sorted : List Item) (key : List ℕ) (o : Offsets) (r : Lookup)
    → ((x : Item) → Occurs x sorted ↔ Occurs x items)
    → Answers sorted key 0 (length sorted) o r
    → Right items key o r
Answers-Right items sorted key o (found fd o') keeps (at, e) = ((keeps (item key fd)).0 at, e)
Answers-Right items sorted key o (missing o') keeps (e, absent) = (
  e,
  λ x occurs.
      let (i, g) = (keeps x).1 occurs in absent i x (omega arith) (get_elem?-lt sorted i g) g,
)
Answers-Right items sorted key o Lookup.fault keeps a = a
Answers-Right items sorted key o Lookup.out_of_fuel keeps a = a

module _ (open_file : ℕ → Option (List ℕ) → Option ℕ) (qsort : List Item → List Item)
    (lines : List (List ℕ)) (are : AreLines lines) (few : length lines < 2 ^ 30) where
  -- Of fewer than 2 ^ 30 lines of which none is empty or begins with a NUL: if some path cannot be
  -- opened, content_init ends the process, and never overruns the array.
  pub content_init-none :
      entries open_file 0 lines ≡ none → content_init open_file qsort (some lines) ≡ exit_failure
  unfolding content_init
  content_init-none e =
      rw
        (
          init_loop-entries open_file lines 16 [] are (omega arith) (omega (arith, few)),
          content_init,
        )
        (rw e)

  -- Of fewer than 2 ^ 30 lines of which none is empty or begins with a NUL: if all paths can be
  -- opened, each with the descriptor of its own call, and qsort sorts, content_init loads the table without overrunning
  -- its array, and content_get then finds a descriptor that a line gives the key, moved to its
  -- start, and reports a missing key exactly for a key that no line gives.
  pub content_init-content_get :
      (items : List Item)
      → entries open_file 0 lines ≡ some items
      → Sorts qsort items
      → (content_init open_file qsort (some lines) ≡ loaded (qsort items))
        × ((key : List ℕ) (o : Offsets) → Right items key o (content_get (qsort items) key o))
  unfolding content_init
  content_init-content_get items e sorts = (
    rw
        (
          init_loop-entries open_file lines 16 [] are (omega arith) (omega (arith, few)),
          content_init,
        )
        (rw e),
    λ key o.
        Answers-Right items _ key o _ sorts.keeps
          (content_get-Answers (qsort items) key sorts.sorted o),
  )
