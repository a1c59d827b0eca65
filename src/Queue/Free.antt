-- ===== src/Queue/Free.antt =====
-- q_free of queue.c.
use cohere_technology_skillb.Prelude.{
  ℕ, zero, suc, ◌+◌, ◌-◌, ◌*◌, ◌<◌, ◌≡◌, ◌≢◌, refl, false, none, some, arith, ◌==◌, length, ◌∙◌,
}
use cohere_technology_skillb.Memory.{Ptr, null, write, load, free}
use cohere_technology_skillb.Memory.Rules
use cohere_technology_skillb.Memory.Rules.{Points, Returns, returns}
use cohere_technology_skillb.Queue.Segment
use cohere_technology_skillb.Queue.Segment.{Entries, ◌∈◌, ◌∉◌, SameOutside, Seg, nil, cons, IsQueue}
use cohere_technology_skillb.Queue.{Queue, queue, QueueHeap, free_loop, q_free}

free_loop-Seg :
    (k : ℕ) {h : QueueHeap} {p : Ptr} {xs : Entries}
    → Seg h null p xs
    → length xs < k
    → Returns
        (λ _ g.
          ((a : Ptr) → a ∈ xs → g.cell a ≡ none)
          × SameOutside xs h g
          × (g.live ≡ h.live - 2 * length xs))
        (free_loop k p h)
unfolding free_loop load free write
free_loop-Seg zero s fuel = absurd (omega arith)
free_loop-Seg (suc k) nil fuel = returns ((λ a i. cc), (λ a o. refl), omega arith)
free_loop-Seg (suc k) {h} (cons {p} {v} {n} {xs} e t z out out' s) fuel =
    let vp : (v == p) ≡ false = ground (arith, e.holds, t.holds) in
    let pv : (p == v) ≡ false = ground (arith, e.holds, t.holds) in
    let g : QueueHeap = record h {
      cell = write (write h.cell v none) p none;
      live = h.live - 1 - 1;
    } in
    let s' : Seg g null n xs = Segment.frame s (ground arith) in
    simp (Rules.not_null e, Rules.not_null t, e.holds, t.holds, pv, load, free, write)
      (Rules.mono (free_loop-Seg k s' (omega arith)) λ _ g' (gone, same, live). (
        (λ a i. ground (arith, gone a, same a)),
        (λ a o. ground (arith, same a)),
        omega (arith, live),
      ))

-- q_free gives back the queue object, every element and every string, and touches nothing else:
-- of the blocks that were live, one for the queue and two for each string are gone.
pub q_free-all :
    (k : ℕ) {h : QueueHeap} {q : Ptr} {s : Queue} {xs : Entries}
    → IsQueue h q s xs
    → length xs < k
    → Returns
        (λ _ g.
          (g.cell q ≡ none)
          × ((a : Ptr) → a ∈ xs → g.cell a ≡ none)
          × ((a : Ptr) → a ≢ q → a ∉ xs → g.cell a ≡ h.cell a)
          × (g.live ≡ h.live - (2 * length xs + 1)))
        (q_free k q h)
unfolding q_free load free write
q_free-all k {h} {q} {s} {xs} is fuel =
    let q0 = Rules.not_null is.object in
    simp (q0, is.object.holds)
      (Rules.bind (free_loop-Seg k is.chain fuel) λ _ g (gone, same, live).
        let atq : g.cell q ≡ some (queue s) =
          same q (Segment.not-mem_of_queue q is.chain is.object.holds) ∙ is.object.holds in
        simp (q0, atq)
          (returns (
            ground arith,
            (λ a i. ground (arith, gone a)),
            (λ a aq o. ground (arith, same a)),
            omega (arith, live),
          )))
