-- ===== src/Harness/Misuse.antt =====
-- test_free of what is not an allocated block.
use cohere_technology_skillb.Prelude.{
  ℕ, zero, suc, ◌+◌, ◌^◌, ◌<◌, ◌≤◌, ◌≡◌, refl, true, false, none, List, ◌∷◌, ◌++◌, arith, ◌==◌,
  ==-self, Bool-cases, inl, inr, length, length-append, if◌then◌else◌,
}
use cohere_technology_skillb.Memory.{Ptr, null, ok, fault, and_then, pure, Run, load}
use cohere_technology_skillb.Memory.Rules
use cohere_technology_skillb.Memory.Rules.{Points, Returns, returns, NoMemory}
use cohere_technology_skillb.Harness.{
  Block, BlockHeap, Harness, header_size, header_of, find_loop, test_free,
}
use cohere_technology_skillb.Harness.Links.{has, Links, nil, cons, IsHarness}
use cohere_technology_skillb.Harness.Release.{Freed, test_free-Freed}

-- The search returns, whether or not it finds the block.
pub find_loop-has :
    {h : BlockHeap} {before p : Ptr} {bs : List Ptr} (k : ℕ) (b : Ptr)
    → Links h null before p bs
    → length bs + 1 ≤ k
    → find_loop k p b h ≡ ok (has b bs) h
unfolding find_loop
find_loop-has zero b l le = absurd (omega arith)
find_loop-has (suc k) b (nil e) le = let t = ==-self null in rw e refl
find_loop-has {h} (suc k) b (cons {before} {p} {n} {bs} e l) le =
    let further = find_loop-has k b l (omega arith) in
    elim (Bool-cases (p == b)) [
      | inl is ↦
          let t : (b == p) ≡ true = ground arith in
          rw (Rules.not_null e) (rw (Rules.load-ok e) (rw (is, t) refl))
      | inr other ↦
          let t : (b == p) ≡ false = ground arith in
          rw (Rules.not_null e) (rw (Rules.load-ok e) (rw (other, t) further))
    ]

-- The search, in either mode.
search-has :
    {h : BlockHeap} {st : Harness} {bs : List Ptr} (k : ℕ) (b : Ptr)
    → IsHarness h st bs
    → length bs + 1 ≤ k
    → (if st.cautious_mode then find_loop k st.allocated b else pure true) h
      ≡ ok (if st.cautious_mode then has b bs else true) h
search-has {st} k b is fuel = elim (Bool-cases st.cautious_mode) [
  | inl c ↦ rw c (find_loop-has k b is.links fuel)
  | inr c ↦ rw c refl
]

load-none : (h : BlockHeap) (p : Ptr) → h.cell p ≡ none → load p h ≡ fault
unfolding load
load-none h p e = elim (Bool-cases (p == null)) [ inl t ↦ rw t refl | inr t ↦ rw (t, e) refl ]

-- test_free of an address behind which no block stands reads outside every object, in cautious
-- mode, too: find_header reports the block and goes on.
pub test_free-fault :
    {h : BlockHeap} {st : Harness} {bs : List Ptr} (k : ℕ) (b : Ptr)
    → IsHarness h st bs
    → b + header_size < 2 ^ 64
    → h.cell b ≡ none
    → length bs + 1 ≤ k
    → test_free k (b + header_size) st h ≡ fault
unfolding test_free
test_free-fault {h} k b is small empty fuel =
    let p0 : (b + header_size == null) ≡ false = ground arith in
    let home : header_of (b + header_size) ≡ b = omega arith in
    rw (is.enabled, p0, home, search-has k b is fuel) (rw (load-none h b empty) refl)

-- A second test_free of the same payload is a fault.
pub test_free-twice :
    {h : BlockHeap} {st : Harness} (k : ℕ) (xs : List Ptr) (b : Ptr) (ys : List Ptr)
    → IsHarness h st (xs ++ (b ∷ ys))
    → b + header_size < 2 ^ 64
    → length (xs ++ (b ∷ ys)) ≤ k
    → length (xs ++ (b ∷ ys)) < 2 ^ 64
    → and_then (test_free k (b + header_size) st h) (λ st'. test_free k (b + header_size) st')
      ≡ fault
test_free-twice {h} {st} k xs b ys is small fuel count =
    go (test_free k (b + header_size) st h) (test_free-Freed k xs b ys is small fuel count)
  where
    go :
        (r : Run Block Harness)
        → Returns (λ st' g. Freed h g st st' xs b ys) r
        → and_then r (λ st'. test_free k (b + header_size) st') ≡ fault
    go r (returns {a = st'} {h = g} f) =
        test_free-fault k b f.harness small f.gone
          (omega (arith, fuel, length-append xs ys, length-append xs (b ∷ ys)))
