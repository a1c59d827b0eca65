-- ===== src/Queue/Tests.antt =====
-- Runs of queue.c on concrete memories, and the theorems at concrete inputs.
use cohere_technology_skillb.Prelude.{
  ℕ, ◌+◌, ◌-◌, ◌*◌, ◌≡◌, ◌≢◌, true, refl, none, some, List, [], ◌∷◌, ◌++◌, arith, length,
}
use cohere_technology_skillb.Memory.{Ptr, null, write, fault, ◌>>=◌}
use cohere_technology_skillb.Memory.Rules.{Returns}
use cohere_technology_skillb.Queue.Segment.{Entries, entry, nil, cons, IsQueue, ◌∈◌, ◌∉◌, nonempty}
use cohere_technology_skillb.Queue.Insert.Blocks.{TwoBlocks, Fails, second_fails}
use cohere_technology_skillb.Queue.Insert.Tail.{q_insert_tail-snoc}
use cohere_technology_skillb.Queue.Insert.Failure.{Unchanged, q_insert-Fails}
use cohere_technology_skillb.Queue.Remove.{Stored, Removed, q_remove_head-cons}
use cohere_technology_skillb.Queue.Stale.{remove-insert_tail-fault}
use cohere_technology_skillb.Queue.Reverse.{Reversed, q_reverse-reverse}
use cohere_technology_skillb.Queue.Free.{q_free-all}
use cohere_technology_skillb.Queue.{
  queue, ele, text, ele_of, Queue, queue_of, QueueHeap, q_free, q_insert_head, q_insert_tail,
  q_remove_head, q_reverse,
}

-- "ab" and "c", in the queue at address 10.
abbrev two : Entries
two = entry 1 2 (97 ∷ 98 ∷ []) ∷ entry 3 4 (99 ∷ []) ∷ []

abbrev two_queue : Queue
two_queue = queue_of 1 3 2

abbrev two_heap : QueueHeap
two_heap = record {
  cell =
      write
        (write
          (write (write (write (λ _. none) 10 (some (queue two_queue))) 1 (some (ele (ele_of 2 3))))
            2 (some (text (97 ∷ 98 ∷ 0 ∷ []))))
          3 (some (ele (ele_of 4 null))))
        4 (some (text (99 ∷ 0 ∷ [])));
  supply = 5 ∷ 6 ∷ [];
  live = 5;
}

two-IsQueue : IsQueue two_heap 10 two_queue two
unfolding write
two-IsQueue = record {
  object = ground arith;
  chain =
      cons (ground arith) (ground arith) (omega arith) refl refl
        (cons (ground arith) (ground arith) (omega arith) refl refl nil);
  last = refl;
  count = refl;
}

two-TwoBlocks : TwoBlocks two_heap 5 6 []
unfolding write
two-TwoBlocks = record {
  supplied = refl;
  first = ground arith;
  second = ground arith;
  apart = omega arith;
}

q_insert_tail-snoc_example :
    Returns
      (λ r g.
        (r ≡ true)
        × ((s' : Queue) × IsQueue g 10 s' (two ++ (entry 5 6 (100 ∷ []) ∷ [])))
        × ((a : Ptr)
            → a ≢ 10
            → a ∉ two
            → a ∉ (entry 5 6 (100 ∷ []) ∷ [])
            → g.cell a ≡ two_heap.cell a))
      (q_insert_tail 10 (100 ∷ []) two_heap)
q_insert_tail-snoc_example =
    q_insert_tail-snoc two (100 ∷ []) two-IsQueue two-TwoBlocks (omega arith) (omega arith)

-- The second allocation fails.
abbrev low_heap : QueueHeap
low_heap = record { cell = two_heap.cell; supply = 5 ∷ null ∷ []; live = 5 }

low-Fails : Fails low_heap
unfolding write
low-Fails = second_fails refl (ground arith) refl

q_insert-Fails_example :
    Returns (Unchanged low_heap) (q_insert_head 10 (100 ∷ []) low_heap)
    × Returns (Unchanged low_heap) (q_insert_tail 10 (100 ∷ []) low_heap)
q_insert-Fails_example = q_insert-Fails 10 (100 ∷ []) low-Fails

abbrev buffer : List ℕ
buffer = 88 ∷ 88 ∷ 88 ∷ []

q_remove_head-cons_example :
    Returns
      (λ r g.
        Stored buffer (97 ∷ 98 ∷ []) 1 r
        × Removed two_heap 10 two_queue (entry 1 2 (97 ∷ 98 ∷ [])) (entry 3 4 (99 ∷ []) ∷ []) g
        × (nonempty (entry 3 4 (99 ∷ []) ∷ []) ≡ true
            → (s' : Queue) × IsQueue g 10 s' (entry 3 4 (99 ∷ []) ∷ [])))
      (q_remove_head 10 (some buffer) 2 two_heap)
q_remove_head-cons_example =
    q_remove_head-cons buffer 1 two-IsQueue (omega arith) (omega arith) (omega arith)

q_reverse-reverse_example : Returns (λ _ g. Reversed two_heap 10 two g) (q_reverse 3 10 two_heap)
q_reverse-reverse_example = q_reverse-reverse 3 two-IsQueue (omega arith)

q_free-all_example :
    Returns
      (λ _ g.
        (g.cell 10 ≡ none)
        × ((a : Ptr) → a ∈ two → g.cell a ≡ none)
        × ((a : Ptr) → a ≢ 10 → a ∉ two → g.cell a ≡ two_heap.cell a)
        × (g.live ≡ two_heap.live - (2 * length two + 1)))
      (q_free 3 10 two_heap)
q_free-all_example = q_free-all 3 two-IsQueue (omega arith)

-- A queue of the one string "c".
abbrev one_heap : QueueHeap
one_heap = record {
  cell =
      write
        (write (write (λ _. none) 10 (some (queue (queue_of 3 3 1)))) 3
          (some (ele (ele_of 4 null))))
        4 (some (text (99 ∷ 0 ∷ [])));
  supply = 5 ∷ 6 ∷ [];
  live = 3;
}

one-IsQueue : IsQueue one_heap 10 (queue_of 3 3 1) (entry 3 4 (99 ∷ []) ∷ [])
unfolding write
one-IsQueue = record {
  object = ground arith;
  chain = cons (ground arith) (ground arith) (omega arith) refl refl nil;
  last = refl;
  count = refl;
}

one-TwoBlocks : TwoBlocks one_heap 5 6 []
unfolding write
one-TwoBlocks = record {
  supplied = refl;
  first = ground arith;
  second = ground arith;
  apart = omega arith;
}

remove-insert_tail-fault_example :
    (q_remove_head 10 (some buffer) 3 >>= λ _. q_insert_tail 10 (100 ∷ [])) one_heap ≡ fault
remove-insert_tail-fault_example =
    remove-insert_tail-fault buffer (100 ∷ []) 2 one-IsQueue one-TwoBlocks (omega arith)
      (omega arith)
