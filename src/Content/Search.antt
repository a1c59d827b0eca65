-- ===== src/Content/Search.antt =====
-- content_get of content.c: binary search in a sorted table.
use cohere_technology_skillb.Prelude.{
  ℕ, zero, suc, ◌+◌, ◌-◌, ◌/◌, ◌<◌, ◌≤◌, ◌≡◌, ◌≢◌, ◌⊎◌, refl, sym, ap, ◌∙◌, some, List, arith, ltb,
  ltb→lt, length, get_elem?, get_elem?_total, Bool-cases, inl, inr,
}
use cohere_technology_skillb.Content.Strcmp.{
  Sign, lt, eq, gt, strcmp, eq_of_strcmp, strcmp_self, strcmp-lt_trans, strcmp-gt_trans,
}
use cohere_technology_skillb.Content.{
  Item, item, Offsets, rewind, Lookup, found, missing, fault, out_of_fuel, get_step, get_loop,
  content_get,
}

-- The keys do not decrease.
abbrev pub IsSorted : List Item → Type 0
IsSorted items =
    (i j : ℕ) (x y : Item)
    → i ≤ j
    → get_elem? items i ≡ some x
    → get_elem? items j ≡ some y
    → strcmp x.key y.key ≢ gt

-- No item from `lo` up to `end` has the key.
abbrev pub Absent : List Item → List ℕ → ℕ → ℕ → Type 0
Absent items key lo end =
    (i : ℕ) (x : Item) → lo ≤ i → i < end → get_elem? items i ≡ some x → x.key ≢ key

-- What a search among the items from `lo` up to `end` may answer.
abbrev pub Answers : List Item → List ℕ → ℕ → ℕ → Offsets → Lookup → Type 0
Answers items key lo end o (found fd o') =
    ((i : ℕ) × (get_elem? items i ≡ some (item key fd))) × (o' ≡ rewind fd o)
Answers items key lo end o (missing o') = (o' ≡ o) × Absent items key lo end
Answers items key lo end o fault = ⊥
Answers items key lo end o out_of_fuel = ⊥

Sign-cases : (s : Sign) → (s ≡ lt) ⊎ (s ≡ eq) ⊎ (s ≡ gt)
Sign-cases lt = inl refl
Sign-cases eq = inr (inl refl)
Sign-cases gt = inr (inr refl)

-- A narrower search answers for the wider range if the rest of it has no such key.
widen :
    (items : List Item) (key : List ℕ) (lo lo' end end' : ℕ) (o : Offsets) (r : Lookup)
    → ((i : ℕ) (x : Item)
        → lo ≤ i
        → i < end
        → get_elem? items i ≡ some x
        → (x.key ≢ key) ⊎ ((lo' ≤ i) × (i < end')))
    → Answers items key lo' end' o r
    → Answers items key lo end o r
widen items key lo lo' end end' o (found fd o') rest a = a
widen items key lo lo' end end' o (missing o') rest (e, absent) = (
  e,
  λ i x p q g. elim (rest i x p q g) [ inl ne ↦ ne | inr within ↦ absent i x within.0 within.1 g ],
)
widen items key lo lo' end end' o fault rest a = a
widen items key lo lo' end end' o out_of_fuel rest a = a

module _ (items : List Item) (key : List ℕ) (sorted : IsSorted items) (o : Offsets) where
  less :
      (m : ℕ) (it : Item)
      → get_elem? items m ≡ some it
      → strcmp key it.key ≡ lt
      → (i : ℕ) (x : Item) → m ≤ i
      → get_elem? items i ≡ some x
      → x.key ≢ key
  less m it at below i x p g e =
      let s : strcmp key x.key ≡ lt =
        strcmp-lt_trans key it.key x.key below (sorted m i it x p at g) in
      ground (arith, strcmp_self key)

  more :
      (m : ℕ) (it : Item)
      → get_elem? items m ≡ some it
      → strcmp key it.key ≡ gt
      → (i : ℕ) (x : Item) → i ≤ m
      → get_elem? items i ≡ some x
      → x.key ≢ key
  more m it at above i x p g e =
      let s : strcmp key x.key ≡ gt =
        strcmp-gt_trans key it.key x.key above (sorted i m x it p g at) in
      ground (arith, strcmp_self key)

  -- One round, from the answers of the searches below and above the middle.
  step-Answers :
      (again : List ℕ → ℕ → ℕ → Offsets → Lookup) (lo end mid : ℕ) (it : Item)
      → get_elem? items mid ≡ some it
      → lo ≤ mid
      → mid < end
      → Answers items key lo mid o (again key lo mid o)
      → Answers items key (mid + 1) end o (again key (mid + 1) end o)
      → Answers items key lo end o (get_step again key lo end mid o (some it))
  unfolding get_step
  step-Answers again lo end mid it at p q low high = elim (Sign-cases (strcmp key it.key)) [
    | inl below ↦
        rw (below, get_step)
          (widen items key lo lo end mid o _
            (λ i x a b g. elim (Bool-cases (ltb i mid)) [
              | inl h ↦ inr (a, ltb→lt i mid h)
              | inr h ↦ inl (less mid it at below i x (ground arith) g)
            ])
            low)
    | inr (inl same) ↦
        rw (same, get_step)
          ((mid, at ∙ ap (λ k. some (item k it.fildes)) (sym (eq_of_strcmp key it.key same))), refl)
    | inr (inr above) ↦
        rw (above, get_step)
          (widen items key lo (mid + 1) end end o _
            (λ i x a b g. elim (Bool-cases (ltb mid i)) [
              | inl h ↦ inr (omega (arith, ltb→lt mid i h), b)
              | inr h ↦ inl (more mid it at above i x (ground arith) g)
            ])
            high)
  ]

  loop-Answers :
      (k lo end : ℕ)
      → end ≤ length items
      → end - lo < k
      → Answers items key lo end o (get_loop k items key lo end o)
  unfolding get_loop
  loop-Answers zero lo end fits fuel = absurd (omega arith)
  loop-Answers (suc k) lo end fits fuel = elim (Bool-cases (ltb lo end)) [
    | inr done ↦ rw done (refl, λ i x p q g. absurd (ground arith))
    | inl left ↦
        let in_range = ltb→lt lo end left in
        let mid = lo + (end - 1 - lo) / 2 in
        let (it, at) = get_elem?_total items mid (omega arith) in
        rw (left, at)
          (step-Answers (get_loop k items) lo end mid it at (omega arith) (omega arith)
            (loop-Answers k lo mid (omega arith) (omega arith))
            (loop-Answers k (mid + 1) end fits (omega arith)))
  ]

  -- In a sorted table content_get ends with a descriptor that stands with the key in the table,
  -- moved back to its start, or says that no item has the key.
  pub content_get-Answers : Answers items key 0 (length items) o (content_get items key o)
  unfolding content_get
  content_get-Answers =
      loop-Answers (suc (length items)) 0 (length items) (omega arith) (omega arith)
