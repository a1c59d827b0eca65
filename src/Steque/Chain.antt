-- ===== src/Steque/Chain.antt =====
-- What the pointers of steque.c stand for: chains of nodes with their items.
use cohere_technology_skillb.Prelude.{
  ◌≡◌, ◌≢◌, refl, Bool, true, false, ◌||◌, none, some, List, [], ◌∷◌, ◌++◌, arith, ◌==◌, length,
  if◌then◌else◌,
}
use cohere_technology_skillb.Memory.{Ptr, null}
use cohere_technology_skillb.Memory.Rules.{Points}
use cohere_technology_skillb.Steque.{node, Steque, NodeHeap}

-- The address and the item of each node, in order.
abbrev pub Nodes : Type 0
Nodes = List (Ptr × Ptr)

-- The items: the abstract steque.
abbrev pub items : Nodes → List Ptr
items [] = []
items ((p, i) ∷ xs) = i ∷ items xs

abbrev pub has : Ptr → Nodes → Bool
has a [] = false
has a ((p, i) ∷ xs) = (a == p) || has a xs

infix 40 ◌∈◌ ◌∉◌
abbrev pub ◌∈◌ : Ptr → Nodes → Type 0
a ∈ xs = has a xs ≡ true

abbrev pub ◌∉◌ : Ptr → Nodes → Type 0
a ∉ xs = has a xs ≡ false

-- From `p` the `next` pointers lead through the distinct nodes `xs` to NULL.
pub data Chain (h : NodeHeap) : Ptr → Nodes → Type 0 where
  nil : Chain h null []
  cons :
      {p n i : Ptr} {xs : Nodes}
      → Points h p (node i n)
      → p ∉ xs
      → Chain h n xs
      → Chain h p ((p, i) ∷ xs)

abbrev pub last_at : Ptr → Nodes → Ptr
last_at d [] = d
last_at d ((p, i) ∷ xs) = last_at p xs

abbrev pub nonempty : Nodes → Bool
nonempty [] = false
nonempty (x ∷ xs) = true

-- The steque `t` holds the nodes `xs`.
pub record IsSteque (h : NodeHeap) (t : Steque) (xs : Nodes) : Type 0 where
  pub chain : Chain h t.front xs
  pub last : t.back ≡ last_at null xs
  pub count : t.size ≡ length xs

pub has-append : (a : Ptr) (xs ys : Nodes) → has a (xs ++ ys) ≡ (has a xs || has a ys)
has-append a [] ys = refl
has-append a (x ∷ xs) ys = ground (arith, has-append a xs ys)

pub last-append : (d : Ptr) (xs : Nodes) (p i : Ptr) → last_at d (xs ++ ((p, i) ∷ [])) ≡ p
last-append d [] p i = refl
last-append d ((p', _) ∷ xs) p i = last-append p' xs p i

pub items-append : (xs ys : Nodes) → items (xs ++ ys) ≡ items xs ++ items ys
items-append [] ys = refl
items-append (x ∷ xs) ys = ground (arith, items-append xs ys)

module _ {h : NodeHeap} where
  pub front-null : {p : Ptr} {xs : Nodes} → Chain h p xs → (p == null) ≡ true → xs ≡ []
  front-null nil e = refl
  front-null (cons at out s) e = absurd (ground (arith, at.ne_null))

  pub eq_of_nil : {p : Ptr} → Chain h p [] → p ≡ null
  eq_of_nil nil = refl

  -- A chain survives any change that spares its own addresses.
  pub frame :
      {g : NodeHeap} {p : Ptr} {xs : Nodes}
      → Chain h p xs
      → ((a : Ptr) → a ∈ xs → g.cell a ≡ h.cell a)
      → Chain g p xs
  frame nil same = nil
  frame (cons {p} at out s) same =
      cons (ground (arith, same p)) out (frame s λ a i. same a (ground arith))

  pub not-mem_of_none : {p : Ptr} {xs : Nodes} (a : Ptr) → Chain h p xs → h.cell a ≡ none → a ∉ xs
  not-mem_of_none a nil unused = refl
  not-mem_of_none a (cons at out s) unused = ground (arith, not-mem_of_none a s unused)

  pub last-ne_null :
      {p : Ptr} {xs : Nodes} (d : Ptr) → Chain h p xs → d ≢ null → last_at d xs ≢ null
  last-ne_null d nil ne = ne
  last-ne_null d (cons {p} at out s) ne = last-ne_null p s at.ne_null

  -- The tail pointer that an insertion at the front leaves.
  pub last-cons :
      {p : Ptr} {xs : Nodes} (t n : Ptr)
      → Chain h p xs
      → t ≡ last_at null xs
      → (if t == null then n else t) ≡ last_at n xs
  last-cons t n nil e = ground arith
  last-cons t n (cons {p} at out s) e = ground (arith, last-ne_null p s at.ne_null)

  pub last-mem :
      {p : Ptr} {xs : Nodes} (d : Ptr) → Chain h p xs → nonempty xs ≡ true → last_at d xs ∈ xs
  last-mem d nil ne = cc
  last-mem d (cons {p} at out nil) ne = ground arith
  last-mem d (cons {p} at out (cons at' o s)) ne = ground (arith, last-mem p (cons at' o s) refl)

  -- The last node links to NULL.
  pub last-link :
      {p : Ptr} {xs : Nodes} (d : Ptr)
      → Chain h p xs
      → nonempty xs ≡ true
      → (i : Ptr) × Points h (last_at d xs) (node i null)
  last-link d nil ne = absurd (cc)
  last-link d (cons {i} at out nil) ne = (i, at)
  last-link d (cons {p} at out (cons at' o s)) ne = last-link p (cons at' o s) refl

-- The heap `g` in which the last node of a chain of `h` has been linked to `n`.
pub record Relinked (h g : NodeHeap) (xs : Nodes) (last i n : Ptr) : Type 0 where
  pub from : h.cell last ≡ some (node i null)
  pub to : g.cell last ≡ some (node i n)
  pub same : (a : Ptr) → a ∈ xs → a ≢ last → g.cell a ≡ h.cell a

module _ {h g : NodeHeap} {n : Ptr} {ys : Nodes} (tail : Chain g n ys) where
  -- A chain grows by what its last node is linked to.
  pub splice :
      {p : Ptr} {xs : Nodes} (d i : Ptr)
      → Chain h p xs
      → nonempty xs ≡ true
      → Relinked h g xs (last_at d xs) i n
      → ((a : Ptr) → a ∈ xs → a ∉ ys)
      → Chain g p (xs ++ ys)
  splice d i nil ne re apart = absurd (cc)
  splice d i (cons {p} at out nil) ne re apart =
      cons (record { ne_null = at.ne_null; holds = ground (arith, re.to, re.from, at.holds) })
        (apart p (ground arith)) tail
  splice d i (cons {p} at out (cons {p = p'} {i = i'} {xs} at' o r)) ne re apart =
      let mem = last-mem p (cons at' o r) refl in
      cons (record { ne_null = at.ne_null; holds = ground (arith, re.same p, at.holds) })
        (rw (has-append p ((p', i') ∷ xs) ys, out) (apart p (ground arith)))
        (splice p i (cons at' o r) refl
          (record { from = re.from; to = re.to; same = λ a m. re.same a (ground arith) })
          λ a m. apart a (ground arith))
