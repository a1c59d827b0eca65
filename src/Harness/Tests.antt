-- ===== src/Harness/Tests.antt =====
-- The allocator at concrete blocks, at the addresses 1000 and 2000.
use cohere_technology_skillb.Prelude.{
  ◌≡◌, refl, true, false, some, none, [], ◌∷◌, arith, if◌then◌else◌, ◌==◌,
}
use cohere_technology_skillb.Memory.{fault, and_then}
use cohere_technology_skillb.Memory.Rules.{Returns}
use cohere_technology_skillb.Harness.{Block, BlockHeap, Harness, whole, test_malloc, test_free}
use cohere_technology_skillb.Harness.Links.{nil, cons, IsHarness}
use cohere_technology_skillb.Harness.Malloc.{test_malloc-test_free}
use cohere_technology_skillb.Harness.Release.{Freed, test_free-Freed}
use cohere_technology_skillb.Harness.Misuse.{test_free-twice}

-- Two blocks, the newer one at 2000.
abbrev older : Block
older = whole 0 2000 3 (7 ∷ 8 ∷ 9 ∷ [])

abbrev newer : Block
newer = whole 1000 0 1 (5 ∷ [])

abbrev two_blocks : BlockHeap
two_blocks = record {
  cell = λ p. if p == 2000 then some newer else (if p == 1000 then some older else none);
  supply = 3000 ∷ [];
  live = 2;
}

abbrev two_allocated : Harness
two_allocated = record {
  allocated = 2000;
  allocated_count = 2;
  cautious_mode = true;
  noallocate_mode = false;
  error_occurred = false;
}

two_allocated-IsHarness : IsHarness two_blocks two_allocated (2000 ∷ 1000 ∷ [])
two_allocated-IsHarness = record {
  links =
      cons (record { ne_null = ground arith; holds = refl })
        (cons (record { ne_null = ground arith; holds = refl }) (nil refl));
  distinct = (refl, (refl, tt));
  count = refl;
  enabled = refl;
}

test_malloc-test_free_example :
    Returns
      (λ st' g.
        IsHarness g st' (2000 ∷ 1000 ∷ []) × ((st'.error_occurred ≡ false) × (g.cell 3000 ≡ none)))
      (and_then (test_malloc false 16 two_allocated two_blocks) (λ r. test_free 3 r.0 r.1))
test_malloc-test_free_example =
    test_malloc-test_free 3 16 two_allocated-IsHarness refl (ground arith) refl (omega arith)
      (omega arith) (omega arith) (omega arith)

test_free-Freed_example :
    Returns
      (λ st' g. Freed two_blocks g two_allocated st' (2000 ∷ []) 1000 [])
      (test_free 2 1032 two_allocated two_blocks)
test_free-Freed_example =
    test_free-Freed 2 (2000 ∷ []) 1000 [] two_allocated-IsHarness (omega arith) (omega arith)
      (omega arith)

test_free-twice_example :
    and_then (test_free 2 1032 two_allocated two_blocks) (λ st'. test_free 2 1032 st') ≡ fault
test_free-twice_example =
    test_free-twice 2 (2000 ∷ []) 1000 [] two_allocated-IsHarness (omega arith) (omega arith)
      (omega arith)
