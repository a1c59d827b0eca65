-- ===== src/Harness/Malloc.antt =====
-- test_malloc, on all its branches.
use cohere_technology_skillb.Prelude.{
  ℕ, suc, ◌+◌, ◌%◌, ◌^◌, ◌<◌, ◌≤◌, ◌≡◌, ◌≢◌, refl, ◌∙◌, true, false, some, none, List, [], ◌∷◌,
  arith, ◌==◌, ltb, ==-ne, inl, inr, length, replicate,
}
use cohere_technology_skillb.Memory.{Ptr, null, and_then, write, load, store}
use cohere_technology_skillb.Memory.Rules
use cohere_technology_skillb.Memory.Rules.{Points, Returns, returns, NoMemory}
use cohere_technology_skillb.Harness.{
  Block, BlockHeap, Harness, whole, fillchar, header_size, footer_size, test_malloc, test_free,
}
use cohere_technology_skillb.Harness.Links
use cohere_technology_skillb.Harness.Links.{
  ◌∈◌, ◌∉◌, has, first-cases, IsDistinct, Links, nil, cons, IsHarness,
}
use cohere_technology_skillb.Harness.Release.{test_free-Freed}

-- The state and the heap after a block has been allocated at `b`.
pub record Allocated (h g : BlockHeap) (st st' : Harness) (bs : List Ptr) (b : Ptr) (size : ℕ)
    : Type 0 where
  pub harness : IsHarness g st' (b ∷ bs)
  pub no_error : st'.error_occurred ≡ st.error_occurred
  pub block : Points g b (whole st.allocated null size (replicate size fillchar))
  pub same : (a : Ptr) → a ∉ (b ∷ bs) → g.cell a ≡ h.cell a

-- A new block before the chain `bs`, whose first block now links back to it.
in_front :
    {h g : BlockHeap} {first b : Ptr} {bs : List Ptr} (size : ℕ) (bytes : List ℕ)
    → Links h null null first bs
    → IsDistinct bs
    → Points g b (whole first null size bytes)
    → ((a : Ptr) → a ∈ bs → a ≢ first → g.cell a ≡ h.cell a)
    → ((e : Block)
        → first ∈ bs
        → h.cell first ≡ some e
        → g.cell first ≡ some (record e { prev = b }))
    → Links g null null b (b ∷ bs)
in_front {b} size bytes l d new same to = cons new (Links.Links-behind b l d same to)

-- test_malloc of a size without overflow, where malloc finds memory, returns the payload of a new
-- block of this size, filled, in front of those allocated; the count is one more, no error is
-- recorded, and nothing outside the list's blocks has changed.
pub test_malloc-Allocated :
    {h : BlockHeap} {st : Harness} {b : Ptr} {rest bs : List Ptr} (size : ℕ)
    → IsHarness h st bs
    → h.supply ≡ b ∷ rest
    → b ≢ null
    → b ∉ bs
    → size + (header_size + footer_size) < 2 ^ 64
    → length bs + 1 < 2 ^ 64
    → Returns
        (λ r g. (r.0 ≡ b + header_size) × Allocated h g st r.1 bs b size)
        (test_malloc false size st h)
unfolding test_malloc load store write
test_malloc-Allocated {h} {st} {b} {rest} {bs} size is supply b0 fresh small count =
    let bytes = replicate size fillchar in
    let alloc = Rules.malloc-ok (whole st.allocated null size bytes) h b0 supply in
    let bn : (b == null) ≡ false = ==-ne b null b0 in
    let fits : ltb (size + (header_size + footer_size)) (2 ^ 64) ≡ true = ground arith in
    let more : (st.allocated_count + 1) % 2 ^ 64 ≡ suc (length bs) =
      omega (arith, is.count, count) in
    elim (first-cases is.links) [
      | inl z ↦
          let t : (st.allocated == null) ≡ true = ground arith in
          simp (is.enabled, alloc, bn, fits, t)
            (returns (
              refl,
              record {
                harness = record {
                  links =
                      in_front size bytes is.links is.distinct
                        (record { ne_null = b0; holds = ground arith }) (λ a i ne. ground arith)
                        (λ e i. absurd ((Links.mem-holds st.allocated is.links i).1.ne_null z));
                  distinct = (fresh, is.distinct);
                  count = more;
                  enabled = refl;
                };
                no_error = refl;
                block = record { ne_null = b0; holds = ground arith };
                same = λ a out. ground arith;
              },
            ))
      | inr mem ↦
          let (e, p) = Links.mem-holds st.allocated is.links mem in
          let t = Rules.not_null p in
          let ba : (st.allocated == b) ≡ false = ==-ne st.allocated b (λ q. cc (fresh, q, mem)) in
          let ab : (b == st.allocated) ≡ false = ==-ne b st.allocated (λ q. cc (fresh, q, mem)) in
          simp (is.enabled, alloc, bn, fits, t, ba, p.holds)
            (returns (
              refl,
              record {
                harness = record {
                  links =
                      in_front size bytes is.links is.distinct
                        (record { ne_null = b0; holds = ground (arith, ab) })
                        (λ a i ne. ground arith) (λ e' i holds. ground (arith, ba, p.holds, holds));
                  distinct = (fresh, is.distinct);
                  count = more;
                  enabled = refl;
                };
                no_error = refl;
                block = record { ne_null = b0; holds = ground (arith, ab) };
                same = λ a out. ground (arith, mem);
              },
            ))
    ]

-- What test_malloc has allocated, test_free gives back: the harness holds the blocks it held before.
pub test_malloc-test_free :
    {h : BlockHeap} {st : Harness} {b : Ptr} {rest bs : List Ptr} (k size : ℕ)
    → IsHarness h st bs
    → h.supply ≡ b ∷ rest
    → b ≢ null
    → b ∉ bs
    → b + header_size < 2 ^ 64
    → size + (header_size + footer_size) < 2 ^ 64
    → length bs + 1 < 2 ^ 64
    → length bs + 1 ≤ k
    → Returns
        (λ st' g.
          IsHarness g st' bs × ((st'.error_occurred ≡ st.error_occurred) × (g.cell b ≡ none)))
        (and_then (test_malloc false size st h) (λ r. test_free k r.0 r.1))
test_malloc-test_free {h} {st} {b} {bs} k size is supply b0 fresh high small count fuel =
    Rules.bind (test_malloc-Allocated size is supply b0 fresh small count) λ r g (eq, made). rw eq (
      Rules.mono
        (test_free-Freed k [] b bs made.harness high (omega (arith, fuel)) (omega (arith, count)))
        λ st' g' f. (f.harness, (f.no_error ∙ made.no_error, f.gone)))
