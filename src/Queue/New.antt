-- ===== src/Queue/New.antt =====
-- q_new of queue.c.
use cohere_technology_skillb.Prelude.{
  ◌+◌, ◌≡◌, refl, false, List, [], ◌∷◌, arith, ◌==◌, ==-ne, ==-self,
}
use cohere_technology_skillb.Memory.{Ptr, null, write, load, store, malloc}
use cohere_technology_skillb.Memory.Rules.{Fresh, Returns, returns}
use cohere_technology_skillb.Queue.Segment.{nil, IsQueue}
use cohere_technology_skillb.Queue.{queue_of, QueueHeap, q_new}

-- A new queue is empty, and stands in the only block that is added.
pub q_new-empty :
    {h : QueueHeap} {q : Ptr} {rest : List Ptr}
    → Fresh h q
    → h.supply ≡ q ∷ rest
    → Returns
        (λ r g.
          (r ≡ q)
          × IsQueue g q (queue_of null null 0) []
          × ((a : Ptr) → (a == q) ≡ false → g.cell a ≡ h.cell a)
          × (g.live ≡ h.live + 1))
        (q_new h)
unfolding q_new malloc load store write
q_new-empty {q} fresh sup =
    let q0 = ==-ne q null fresh.ne_null in
    let at = ==-self q in
    simp (sup, q0, ==-self, malloc, load, store, write)
      (returns (
        refl,
        record {
          object = record { ne_null = fresh.ne_null; holds = ground arith };
          chain = nil;
          last = refl;
          count = refl;
        },
        (λ a ne. ground arith),
        refl,
      ))
