-- ===== src/Queue/Insert/Head.antt =====
-- q_insert_head of queue.c.
use cohere_technology_skillb.Prelude.{
  ℕ, ◌+◌, ◌<◌, ◌^◌, ◌%◌, ◌≡◌, ◌≢◌, refl, true, List, [], ◌∷◌, some, arith, ◌==◌, ==-self, length,
  if◌then◌else◌, Bool-cases, inl, inr,
}
use cohere_technology_skillb.Memory.{Ptr, null, write, load, store, malloc}
use cohere_technology_skillb.Memory.Rules
use cohere_technology_skillb.Memory.Rules.{Returns, returns}
use cohere_technology_skillb.Queue.Strings.{NoNul}
use cohere_technology_skillb.Queue.Segment
use cohere_technology_skillb.Queue.Segment.{Entries, entry, ◌∈◌, ◌∉◌, cons, IsQueue, terminated}
use cohere_technology_skillb.Queue.Insert.Blocks.{
  TwoBlocks, fits, drop-replicate, Apart_lem, first-not-mem, second-not-mem, queue-not-mem,
}
use cohere_technology_skillb.Queue.{queue, ele, ele_of, Queue, queue_of, QueueHeap, q_insert_head}

module _ {h : QueueHeap} {q n v : Ptr} {s : Queue} {xs : Entries} {rest : List Ptr} (bytes : List ℕ)
    (is : IsQueue h q s xs) (two : TwoBlocks h n v rest) where
  q_insert_head-run :
      Returns
        (λ r g.
          (r ≡ true)
          × (g.cell q
              ≡ some (
                  queue
                    (queue_of n (if s.tail == null then n else s.tail) ((s.size + 1) % 2 ^ 32))))
          × (g.cell n ≡ some (ele (ele_of v s.head)))
          × (g.cell v ≡ some (terminated bytes))
          × ((a : Ptr) → a ≢ q → a ≢ n → a ≢ v → g.cell a ≡ h.cell a))
        (q_insert_head q bytes h)
  unfolding q_insert_head malloc load store write
  q_insert_head-run =
      let ap = Apart_lem is two in
      let room = fits (length bytes) in
      let all = drop-replicate (length bytes + 1) in
      elim (Bool-cases (s.tail == null)) [
        | inl t ↦
            simp
              (
                ap.q0, two.supplied, ap.n0, ap.v0, ap.qn, ap.qv, ap.nv, ap.vn, ==-self,
                is.object.holds, room, all, t, malloc, load, store, write,
              )
              (returns (refl, ground arith, ground arith, ground arith, λ a aq an av. ground arith))
        | inr t ↦
            simp
              (
                ap.q0, two.supplied, ap.n0, ap.v0, ap.qn, ap.qv, ap.nv, ap.vn, ==-self,
                is.object.holds, room, all, t, malloc, load, store, write,
              )
              (returns (refl, ground arith, ground arith, ground arith, λ a aq an av. ground arith))
      ]

  -- After a successful insertion at the head the queue holds the new string in front of the old
  -- ones, and nothing outside the queue object and the new blocks has changed.
  pub q_insert_head-cons :
      NoNul bytes
      → length xs + 1 < 2 ^ 31
      → Returns
          (λ r g.
            (r ≡ true)
            × ((s' : Queue) × IsQueue g q s' (entry n v bytes ∷ xs))
            × ((a : Ptr) → a ≢ q → a ∉ (entry n v bytes ∷ []) → g.cell a ≡ h.cell a))
          (q_insert_head q bytes h)
  q_insert_head-cons z small = Rules.mono q_insert_head-run λ r g (done, atq, atn, atv, same). (
    done,
    (
      _,
      record {
        object = record { ne_null = is.object.ne_null; holds = atq };
        chain =
            cons (record { ne_null = two.first.ne_null; holds = atn })
              (record { ne_null = two.second.ne_null; holds = atv }) z (first-not-mem is two)
              (second-not-mem is two)
              (Segment.frame is.chain λ a i.
                same a (ground (arith, queue-not-mem is)) (ground (arith, first-not-mem is two))
                  (ground (arith, second-not-mem is two)));
        last = Segment.last-cons s.tail n is.chain is.last;
        count = omega (arith, is.count);
      },
    ),
    λ a aq out. same a aq (ground arith) (ground arith),
  )
