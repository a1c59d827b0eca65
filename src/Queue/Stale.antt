-- ===== src/Queue/Stale.antt =====
-- The tail pointer of queue.c after the last element has been removed.
use cohere_technology_skillb.Prelude.{
  ℕ, suc, ◌+◌, ◌^◌, ◌<◌, ◌≡◌, ◌≢◌, refl, none, some, List, [], ◌∷◌, arith, ==-ne, ==-self, length,
  ◌∙◌,
}
use cohere_technology_skillb.Memory.{
  Ptr, null, write, load, store, malloc, Run, fault, Cmd, and_then, ◌>>=◌,
}
use cohere_technology_skillb.Memory.Rules.{Points, Returns, returns}
use cohere_technology_skillb.Queue.Segment
use cohere_technology_skillb.Queue.Segment.{Entry, Entries, Seg, cons, IsQueue, ◌∉◌}
use cohere_technology_skillb.Queue.Insert.Blocks.{TwoBlocks, fits, drop-replicate, Apart, Apart_lem}
use cohere_technology_skillb.Queue.Remove.{q_remove_head-cons}
use cohere_technology_skillb.Queue.{
  Queue, queue, ele, ele_of, QueueHeap, q_remove_head, q_insert_tail,
}

fault_of_Returns :
    {C A B : Type 0} {P : A → _ → Type 0} {r : Run C A} {k : A → Cmd C B}
    → Returns P r
    → ((a : A) (h : _) → P a h → k a h ≡ fault)
    → and_then r k ≡ fault
fault_of_Returns (returns p) bad = bad _ _ p

-- An insertion at the tail through a tail pointer to a freed element.
insert-stale :
    {g : QueueHeap} {q n v : Ptr} {s : Queue} {rest : List Ptr} (bytes : List ℕ)
    → Points g q (queue s)
    → Apart q n v
    → g.supply ≡ n ∷ v ∷ rest
    → s.tail ≢ null
    → g.cell s.tail ≡ none
    → s.tail ≢ n
    → s.tail ≢ v
    → q_insert_tail q bytes g ≡ fault
unfolding q_insert_tail malloc load store write
insert-stale {s} bytes object ap sup t0 gone tn tv =
    let tn' = ==-ne s.tail _ tn in
    let tv' = ==-ne s.tail _ tv in
    let t0' = ==-ne s.tail null t0 in
    simp (
      ap.q0,
      sup,
      ap.n0,
      ap.v0,
      ap.qn,
      ap.qv,
      ap.nv,
      ap.vn,
      ==-self,
      object.holds,
      fits (length bytes),
      drop-replicate (length bytes + 1),
      t0',
      tn',
      tv',
      gone,
      malloc,
      load,
      store,
      write,
    )

-- After the only element has been removed, the tail pointer still leads to the freed element, and
-- the next insertion at the tail writes through it: undefined behaviour, if both calls of malloc
-- succeed, at two addresses at which nothing stood before the removal, so that neither block of the
-- removed element is handed out again.
pub remove-insert_tail-fault :
    {h : QueueHeap} {q n v : Ptr} {s : Queue} {x : Entry} {rest : List Ptr} (buf bytes : List ℕ)
    (k : ℕ)
    → IsQueue h q s (x ∷ [])
    → TwoBlocks h n v rest
    → k < length buf
    → suc k < 2 ^ 64
    → (q_remove_head q (some buf) (suc k) >>= λ _. q_insert_tail q bytes) h ≡ fault
remove-insert_tail-fault {h} {q} {n} {v} {s} {x} buf bytes k is two fits big =
    fault_of_Returns (q_remove_head-cons buf k is (omega arith) fits big)
      λ r g (stored, removed, _).
        insert-stale bytes removed.object (Apart_lem is two) (removed.supply ∙ two.supplied)
          (ground (arith, is.last, at-Points.ne_null)) (ground (arith, is.last, removed.freed.0))
          (ground (arith, is.last, at-Points.holds, two.first.unused))
          (ground (arith, is.last, at-Points.holds, two.second.unused))
  where
    link : (w : Ptr) × Points h (Segment.last_at null (x ∷ [])) (ele (ele_of w null))
    link = Segment.last-link null is.chain refl

    at-Points : Points h x.at (ele (ele_of link.0 null))
    at-Points = link.1
