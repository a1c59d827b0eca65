-- ===== src/Memory/Rules.antt =====
-- Rules for the memory commands, and the postcondition family of a run.
use cohere_technology_skillb.Prelude.{
  ◌+◌, ◌-◌, ◌≡◌, ◌≢◌, ◌∙◌, refl, false, none, some, ◌∷◌, [], List, arith, ◌==◌, ==-ne, drop,
}
use cohere_technology_skillb.Memory.{
  Ptr, null, Heap, write, Run, ok, Cmd, and_then, load, store, malloc, free,
}

-- Total correctness: the run returns, and its result and heap meet `P`.
pub data Returns {C A : Type 0} (P : A → Heap C → Type 0) : Run C A → Type 0 where
  returns : {a : A} {h : Heap C} → P a h → Returns P (ok a h)

module _ {C A : Type 0} {P : A → Heap C → Type 0} where
  pub bind :
      {B : Type 0} {Q : B → Heap C → Type 0} {r : Run C A} {k : A → Cmd C B}
      → Returns P r
      → ((a : A) (h : Heap C) → P a h → Returns Q (k a h))
      → Returns Q (and_then r k)
  bind (returns p) next = next _ _ p

  pub mono :
      {Q : A → Heap C → Type 0} {r : Run C A}
      → Returns P r
      → ((a : A) (h : Heap C) → P a h → Q a h)
      → Returns Q r
  mono (returns p) weaken = returns (weaken _ _ p)

-- At `p` stands the object `c`.
pub record Points {C : Type 0} (h : Heap C) (p : Ptr) (c : C) : Type 0 where
  pub ne_null : p ≢ null
  pub holds : h.cell p ≡ some c

-- An object stands in every heap that has not changed its address.
pub Points-frame :
    {C : Type 0} {h g : Heap C} {p : Ptr} {c : C}
    → Points h p c
    → g.cell p ≡ h.cell p
    → Points g p c
Points-frame e same = record { ne_null = e.ne_null; holds = same ∙ e.holds }

module _ {C : Type 0} {h : Heap C} {p : Ptr} {c : C} (e : Points h p c) where
  pub not_null : (p == null) ≡ false
  not_null = ground (arith, e.ne_null)

  pub load-ok : load p h ≡ ok c h
  unfolding load
  load-ok = rw (not_null, e.holds)

  pub store-ok : (d : C) → store p d h ≡ ok tt (record h { cell = write h.cell p (some d) })
  unfolding store
  store-ok d = rw load-ok

  pub free-ok : free p h ≡ ok tt (record h { cell = write h.cell p none; live = h.live - 1 })
  unfolding free
  free-ok = rw load-ok

-- An address at which no object stands, as malloc returns it.
pub record Fresh {C : Type 0} (h : Heap C) (p : Ptr) : Type 0 where
  pub ne_null : p ≢ null
  pub unused : h.cell p ≡ none

-- The next call of malloc returns NULL.
abbrev pub NoMemory : List Ptr → Type 0
NoMemory [] = Unit
NoMemory (p ∷ rest) = p ≡ null

module _ {C : Type 0} where
  pub malloc-ok :
      {p : Ptr} {rest : List Ptr} (c : C) (h : Heap C)
      → p ≢ null
      → h.supply ≡ p ∷ rest
      → malloc c h
        ≡ ok p (record h { cell = write h.cell p (some c); supply = rest; live = h.live + 1 })
  unfolding malloc
  malloc-ok {p} c h ne e = let test : (p == null) ≡ false = ==-ne p null ne in rw (e, test)

  pub malloc-null :
      (c : C) (h : Heap C)
      → NoMemory h.supply
      → malloc c h ≡ ok null (record h { supply = drop 1 h.supply })
  unfolding malloc
  malloc-null c h = go h.supply refl
    where
      go :
          (l : List Ptr)
          → h.supply ≡ l
          → NoMemory l
          → malloc c h ≡ ok null (record h { supply = drop 1 h.supply })
      go [] e n = rw e
      go (p ∷ rest) e n = rw e (rw n)
