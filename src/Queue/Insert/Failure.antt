-- ===== src/Queue/Insert/Failure.antt =====
-- The failures of q_insert_head and q_insert_tail of queue.c: no queue, or no memory.
use cohere_technology_skillb.Prelude.{
  ℕ, ◌≡◌, refl, Bool, false, List, [], ◌∷◌, arith, ◌==◌, ==-self, ==-ne, inl, inr, Bool-cases,
}
use cohere_technology_skillb.Memory.{Ptr, null, write, load, store, malloc, free}
use cohere_technology_skillb.Memory.Rules.{Returns, returns, malloc-null}
use cohere_technology_skillb.Queue.{QueueHeap, new_ele, q_insert_head, q_insert_tail}
use cohere_technology_skillb.Queue.Insert.Blocks.{Fails, first_fails, second_fails}

-- The insertion returns false, holds no block more than before, and every object is as before.
abbrev pub Unchanged : QueueHeap → Bool → QueueHeap → Type 0
Unchanged h r g = (r ≡ false) × ((a : Ptr) → g.cell a ≡ h.cell a) × (g.live ≡ h.live)

module _ {h : QueueHeap} (q : Ptr) (bytes : List ℕ) (f : Fails h) where
  head-Fails : (q == null) ≡ false → Fails h → Returns (Unchanged h) (q_insert_head q bytes h)
  unfolding q_insert_head malloc load store free write
  head-Fails q0 (first_fails e) =
      simp (q0, malloc-null new_ele h e) (returns (refl, λ a. refl, refl))
  head-Fails q0 (second_fails {n} {rest = []} e f e') =
      simp (q0, e, ==-ne n null f.ne_null, ==-self, malloc, load, store, free, write)
        (returns (refl, λ a. ground (arith, f.unused), omega arith))
  head-Fails q0 (second_fails {n} {rest = p ∷ rest} e f e') =
      simp (q0, e, ==-ne n null f.ne_null, e', ==-self, malloc, load, store, free, write)
        (returns (refl, λ a. ground (arith, f.unused), omega arith))

  tail-Fails : (q == null) ≡ false → Fails h → Returns (Unchanged h) (q_insert_tail q bytes h)
  unfolding q_insert_tail malloc load store free write
  tail-Fails q0 (first_fails e) =
      simp (q0, malloc-null new_ele h e) (returns (refl, λ a. refl, refl))
  tail-Fails q0 (second_fails {n} {rest = []} e f e') =
      simp (q0, e, ==-ne n null f.ne_null, ==-self, malloc, load, store, free, write)
        (returns (refl, λ a. ground (arith, f.unused), omega arith))
  tail-Fails q0 (second_fails {n} {rest = p ∷ rest} e f e') =
      simp (q0, e, ==-ne n null f.ne_null, e', ==-self, malloc, load, store, free, write)
        (returns (refl, λ a. ground (arith, f.unused), omega arith))

  -- If either allocation fails, both insertions return false, also on a NULL queue, with every
  -- object as before and no block kept.
  pub q_insert-Fails :
      Returns (Unchanged h) (q_insert_head q bytes h)
      × Returns (Unchanged h) (q_insert_tail q bytes h)
  unfolding q_insert_head q_insert_tail
  q_insert-Fails = elim (Bool-cases (q == null)) [
    | inl q0 ↦
        (simp q0 (returns (refl, λ a. refl, refl)), simp q0 (returns (refl, λ a. refl, refl)))
    | inr q0 ↦ (head-Fails q0 f, tail-Fails q0 f)
  ]
