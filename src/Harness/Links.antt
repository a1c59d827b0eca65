-- ===== src/Harness/Links.antt =====
-- What the list of allocated blocks stands for: addresses, each block linked to both neighbours.
use cohere_technology_skillb.Prelude.{
  ℕ, ◌≡◌, ◌≢◌, refl, Bool, true, false, ◌||◌, some, List, [], ◌∷◌, ◌++◌, arith, ◌==◌, Bool-cases,
  ◌⊎◌, inl, inr, ==→eq, sym, length, if◌then◌else◌,
}
use mathlib.Core.Path.{subst}
use cohere_technology_skillb.Memory.{Ptr, null}
use cohere_technology_skillb.Memory.Rules.{Points, Points-frame}
use cohere_technology_skillb.Harness.{Block, BlockHeap, Harness, whole}

abbrev pub has : Ptr → List Ptr → Bool
has a [] = false
has a (b ∷ bs) = (a == b) || has a bs

infix 40 ◌∈◌ ◌∉◌
abbrev pub ◌∈◌ : Ptr → List Ptr → Type 0
a ∈ bs = has a bs ≡ true

abbrev pub ◌∉◌ : Ptr → List Ptr → Type 0
a ∉ bs = has a bs ≡ false

abbrev pub IsDistinct : List Ptr → Type 0
IsDistinct [] = Unit
IsDistinct (b ∷ bs) = (b ∉ bs) × IsDistinct bs

-- From `p`, whose `prev` is `before`, the blocks `bs` lead to `stop`.
pub data Links (h : BlockHeap) (stop : Ptr) : (before p : Ptr) → List Ptr → Type 0 where
  nil : {before p : Ptr} → p ≡ stop → Links h stop before p []
  cons :
      {before p n : Ptr} {size : ℕ} {bytes : List ℕ} {bs : List Ptr}
      → Points h p (whole n before size bytes)
      → Links h stop p n bs
      → Links h stop before p (p ∷ bs)

abbrev pub last_at : Ptr → List Ptr → Ptr
last_at d [] = d
last_at d (b ∷ bs) = last_at b bs

abbrev pub is_empty : List Ptr → Bool
is_empty [] = true
is_empty (b ∷ bs) = false

-- The blocks `bs` are allocated, and the count is their number.
pub record IsHarness (h : BlockHeap) (st : Harness) (bs : List Ptr) : Type 0 where
  pub links : Links h null null st.allocated bs
  pub distinct : IsDistinct bs
  pub count : st.allocated_count ≡ length bs
  pub enabled : st.noallocate_mode ≡ false

pub has-append : (a : Ptr) (xs ys : List Ptr) → has a (xs ++ ys) ≡ (has a xs || has a ys)
has-append a [] ys = refl
has-append a (x ∷ xs) ys = ground (arith, has-append a xs ys)

pub last-mem : (d : Ptr) (b : Ptr) (bs : List Ptr) → last_at d (b ∷ bs) ∈ (b ∷ bs)
last-mem d b [] = ground arith
last-mem d b (c ∷ bs) = ground (arith, last-mem b c bs)

-- The parts of a list without repetition.
pub record Parts (xs : List Ptr) (b : Ptr) (ys : List Ptr) : Type 0 where
  pub left : IsDistinct xs
  pub right : IsDistinct ys
  pub b-left : b ∉ xs
  pub b-right : b ∉ ys
  pub apart : (a : Ptr) → a ∈ xs → a ∉ ys
  pub joined : IsDistinct (xs ++ ys)

pub Parts_lem :
    (xs : List Ptr) (b : Ptr) (ys : List Ptr) → IsDistinct (xs ++ (b ∷ ys)) → Parts xs b ys
Parts_lem [] b ys d = record {
  left = tt;
  right = d.1;
  b-left = refl;
  b-right = d.0;
  apart = λ a i. absurd (cc);
  joined = d.1;
}
Parts_lem (x ∷ xs) b ys d =
    let ih = Parts_lem xs b ys d.1 in
    let here = has-append x xs (b ∷ ys) in
    let there = has-append x xs ys in
    record {
      left = (ground arith, ih.left);
      right = ih.right;
      b-left = ground (arith, ih.b-left);
      b-right = ih.b-right;
      apart = λ a i. ground (arith, ih.apart a);
      joined = (ground arith, ih.joined);
    }

-- The block `b` in a chain, and the chains on its two sides.
pub record Split (h : BlockHeap) (stop before p : Ptr) (xs : List Ptr) (b : Ptr) (ys : List Ptr)
    : Type 0 where
  pub n : Ptr
  pub size : ℕ
  pub bytes : List ℕ
  pub front : Links h b before p xs
  pub block : Points h b (whole n (last_at before xs) size bytes)
  pub back : Links h stop b n ys

module _ {h : BlockHeap} {stop : Ptr} where
  pub Split_lem :
      {before p b : Ptr} (xs ys : List Ptr)
      → Links h stop before p (xs ++ (b ∷ ys))
      → Split h stop before p xs b ys
  Split_lem [] ys (cons {n} {size} {bytes} e l) = record {
    n = n;
    size = size;
    bytes = bytes;
    front = nil refl;
    block = e;
    back = l;
  }
  Split_lem (x ∷ xs) ys (cons e l) =
      let s = Split_lem xs ys l in
      record {
        n = s.n;
        size = s.size;
        bytes = s.bytes;
        front = cons e s.front;
        block = s.block;
        back = s.back;
      }

  pub Links-append :
      {m before p : Ptr} {xs ys : List Ptr}
      → Links h m before p xs
      → Links h stop (last_at before xs) m ys
      → Links h stop before p (xs ++ ys)
  Links-append (nil e) r = rw e r
  Links-append (cons e l) r = cons e (Links-append l r)

  pub Links-frame :
      {g : BlockHeap} {before p : Ptr} {xs : List Ptr}
      → Links h stop before p xs
      → ((a : Ptr) → a ∈ xs → g.cell a ≡ h.cell a)
      → Links g stop before p xs
  Links-frame (nil e) same = nil e
  Links-frame (cons {p} e l) same =
      cons (Points-frame e (same p (ground arith))) (Links-frame l λ a i. same a (ground arith))

  pub mem-holds :
      {before p : Ptr} {xs : List Ptr} (a : Ptr)
      → Links h stop before p xs
      → a ∈ xs
      → (e : Block) × Points h a e
  mem-holds a (nil e) i = absurd (cc)
  mem-holds a (cons {before} {p} {n} {size} {bytes} e l) i = elim (Bool-cases (a == p)) [
    | inl is ↦ (
      whole n before size bytes,
      subst (λ x. Points h x (whole n before size bytes)) (sym (==→eq a p is)) e,
    )
    | inr other ↦ mem-holds a l (ground arith)
  ]

  -- The chain before a block that is taken out, in a heap where its last block links past it.
  pub Links-before :
      {g : BlockHeap} {before p : Ptr} {xs : List Ptr} (n : Ptr)
      → Links h stop before p xs
      → IsDistinct xs
      → ((a : Ptr) → a ∈ xs → a ≢ last_at before xs → g.cell a ≡ h.cell a)
      → ((e : Block)
          → last_at before xs ∈ xs
          → h.cell (last_at before xs) ≡ some e
          → g.cell (last_at before xs) ≡ some (record e { next = n }))
      → Links g n before (if is_empty xs then n else p) xs
  Links-before n (nil e) d same to = nil refl
  Links-before n (cons {p} e (nil z)) d same to =
      cons (record { ne_null = e.ne_null; holds = to _ (ground arith) e.holds }) (nil refl)
  Links-before n (cons {p} e (cons {p = q} {bs} f l)) d same to =
      let mem = last-mem p q bs in
      cons (Points-frame e (same p (ground arith) (λ q'. ground (arith, d.0, mem)))) (
        Links-before n (cons f l) d.1 (λ a i ne. same a (ground arith) ne)
          (λ b i. to b (ground arith)))

  -- The chain behind it, in a heap where its first block links back past it.
  pub Links-behind :
      {g : BlockHeap} {before p : Ptr} {xs : List Ptr} (b : Ptr)
      → Links h stop before p xs
      → IsDistinct xs
      → ((a : Ptr) → a ∈ xs → a ≢ p → g.cell a ≡ h.cell a)
      → ((e : Block) → p ∈ xs → h.cell p ≡ some e → g.cell p ≡ some (record e { prev = b }))
      → Links g stop b p xs
  Links-behind b (nil e) d same to = nil e
  Links-behind b (cons {p} e l) d same to =
      cons (record { ne_null = e.ne_null; holds = to _ (ground arith) e.holds })
        (Links-frame l λ a i. same a (ground arith) (λ q. ground (arith, d.0)))

-- The last of a list: one of its members, or what stands before it.
pub last-cases :
    (d : Ptr) (xs : List Ptr)
    → ((is_empty xs ≡ true) × (last_at d xs ≡ d)) ⊎ ((is_empty xs ≡ false) × (last_at d xs ∈ xs))
last-cases d [] = inl (refl, refl)
last-cases d (x ∷ xs) = inr (refl, last-mem d x xs)

pub first-cases :
    {h : BlockHeap} {stop before p : Ptr} {xs : List Ptr}
    → Links h stop before p xs
    → (p ≡ stop) ⊎ (p ∈ xs)
first-cases (nil e) = inl e
first-cases (cons {p} e l) = inr (ground arith)
