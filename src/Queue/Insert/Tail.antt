-- ===== src/Queue/Insert/Tail.antt =====
-- q_insert_tail of queue.c.
use cohere_technology_skillb.Prelude.{
  ℕ, ◌+◌, ◌<◌, ◌^◌, ◌%◌, ◌≡◌, ◌≢◌, refl, true, false, List, [], ◌∷◌, some, arith, ◌==◌, ==-self,
  length, length-append, sym, ◌++◌,
}
use cohere_technology_skillb.Memory.{Ptr, null, write, load, store, malloc}
use cohere_technology_skillb.Memory.Rules
use cohere_technology_skillb.Memory.Rules.{Points, Returns, returns}
use cohere_technology_skillb.Queue.Strings.{NoNul}
use cohere_technology_skillb.Queue.Segment
use cohere_technology_skillb.Queue.Segment.{
  Entries, entry, ◌∈◌, ◌∉◌, nil, cons, IsQueue, terminated,
}
use cohere_technology_skillb.Queue.Insert.Blocks.{
  TwoBlocks, fits, drop-replicate, Apart_lem, first-not-mem, second-not-mem, queue-not-mem,
}
use cohere_technology_skillb.Queue.{queue, ele, ele_of, Queue, queue_of, QueueHeap, q_insert_tail}

module _ {h : QueueHeap} {q n v : Ptr} {s : Queue} {xs : Entries} {rest : List Ptr} (bytes : List ℕ)
    (is : IsQueue h q s xs) (two : TwoBlocks h n v rest) where
  -- Into an empty queue: the new element is both head and tail.
  run_empty :
      (s.tail == null) ≡ true
      → Returns
          (λ r g.
            (r ≡ true)
            × (g.cell q ≡ some (queue (queue_of n n ((s.size + 1) % 2 ^ 32))))
            × (g.cell n ≡ some (ele (ele_of v null)))
            × (g.cell v ≡ some (terminated bytes))
            × ((a : Ptr) → a ≢ q → a ≢ n → a ≢ v → g.cell a ≡ h.cell a))
          (q_insert_tail q bytes h)
  unfolding q_insert_tail malloc load store write
  run_empty t =
      let ap = Apart_lem is two in
      let room = fits (length bytes) in
      let all = drop-replicate (length bytes + 1) in
      simp
        (
          ap.q0, two.supplied, ap.n0, ap.v0, ap.qn, ap.qv, ap.nv, ap.vn, ==-self, is.object.holds,
          room, all, t, malloc, load, store, write,
        )
        (returns (refl, ground arith, ground arith, ground arith, λ a aq an av. ground arith))

  -- Behind the last element `s.tail`, which links to the new one.
  run_last :
      (w : Ptr)
      → Points h s.tail (ele (ele_of w null))
      → Returns
          (λ r g.
            (r ≡ true)
            × (g.cell q ≡ some (queue (queue_of s.head n ((s.size + 1) % 2 ^ 32))))
            × (g.cell n ≡ some (ele (ele_of v null)))
            × (g.cell v ≡ some (terminated bytes))
            × (g.cell s.tail ≡ some (ele (ele_of w n)))
            × ((a : Ptr) → a ≢ q → a ≢ n → a ≢ v → a ≢ s.tail → g.cell a ≡ h.cell a))
          (q_insert_tail q bytes h)
  unfolding q_insert_tail malloc load store write
  run_last w last =
      let ap = Apart_lem is two in
      let room = fits (length bytes) in
      let all = drop-replicate (length bytes + 1) in
      let t0 : (s.tail == null) ≡ false = Rules.not_null last in
      let qt : (q == s.tail) ≡ false = ground (arith, is.object.holds, last.holds) in
      let tn : (s.tail == n) ≡ false = ground (arith, two.first.unused, last.holds) in
      let tv : (s.tail == v) ≡ false = ground (arith, two.second.unused, last.holds) in
      simp
        (
          ap.q0, two.supplied, ap.n0, ap.v0, ap.qn, ap.qv, ap.nv, ap.vn, ==-self, is.object.holds,
          last.holds, t0, qt, tn, tv, room, all, malloc, load, store, write,
        )
        (returns (
          refl,
          ground arith,
          ground arith,
          ground arith,
          ground arith,
          λ a aq an av at. ground arith,
        ))

-- After a successful insertion at the tail the queue holds the new string behind the old ones, and
-- nothing outside the queue object, the old elements and the new blocks has changed.
pub q_insert_tail-snoc :
    {h : QueueHeap} {q n v : Ptr} {s : Queue} {rest : List Ptr} (xs : Entries) (bytes : List ℕ)
    → IsQueue h q s xs
    → TwoBlocks h n v rest
    → NoNul bytes
    → length xs + 1 < 2 ^ 31
    → Returns
        (λ r g.
          (r ≡ true)
          × ((s' : Queue) × IsQueue g q s' (xs ++ (entry n v bytes ∷ [])))
          × ((a : Ptr) → a ≢ q → a ∉ xs → a ∉ (entry n v bytes ∷ []) → g.cell a ≡ h.cell a))
        (q_insert_tail q bytes h)
q_insert_tail-snoc {s} [] bytes is two z small =
    let t : (s.tail == null) ≡ true = ground (arith, is.last) in
    Rules.mono (run_empty bytes is two t) λ r g (done, atq, atn, atv, same). (
      done,
      (
        _,
        record {
          object = record { ne_null = is.object.ne_null; holds = atq };
          chain =
              cons (record { ne_null = two.first.ne_null; holds = atn })
                (record { ne_null = two.second.ne_null; holds = atv }) z refl refl nil;
          last = refl;
          count = omega (arith, is.count);
        },
      ),
      λ a aq _ out. same a aq (ground arith) (ground arith),
    )
q_insert_tail-snoc {h} {q} {n} {v} {s} (x ∷ xs) bytes is two z small =
    let (w, link) = Segment.last-link null is.chain refl in
    let mem = Segment.last-mem null is.chain refl in
    Rules.mono
      (run_last bytes is two w (record {
        ne_null = ground (arith, is.last, link.ne_null);
        holds = ground (arith, is.last, link.holds);
      }))
      λ r g (done, atq, atn, atv, att, same). (
        done,
        (
          _,
          record {
            object = record { ne_null = is.object.ne_null; holds = atq };
            chain =
                Segment.splice
                  (cons (record { ne_null = two.first.ne_null; holds = atn })
                    (record { ne_null = two.second.ne_null; holds = atv }) z refl refl nil)
                  null w is.chain refl
                  (record {
                    from = link.holds;
                    to = ground (arith, is.last, att);
                    same = λ a i na.
                        same a (ground (arith, queue-not-mem is))
                          (ground (arith, first-not-mem is two))
                          (ground (arith, second-not-mem is two)) (ground (arith, is.last));
                  })
                  λ a i. ground (arith, first-not-mem is two, second-not-mem is two);
            last = sym (Segment.last-append null (x ∷ xs) _);
            count = omega (arith, is.count, length-append (x ∷ xs) (entry n v bytes ∷ []));
          },
        ),
        λ a aq o out. same a aq (ground arith) (ground arith) (ground (arith, is.last)),
      )
