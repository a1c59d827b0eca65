-- ===== src/Qtest/Tests.antt =====
-- The commands of the test program on a queue of two strings.
use cohere_technology_skillb.Prelude.{
  ℕ, ◌-◌, ◌≡◌, ◌↔◌, refl, Bool, true, false, none, some, List, [], ◌∷◌, ◌++◌, arith, take,
}
use cohere_technology_skillb.Memory.{null, write}
use cohere_technology_skillb.Queue.{queue, ele, text, ele_of, Queue, queue_of, QueueHeap}
use cohere_technology_skillb.Queue.Insert.Blocks.{TwoBlocks}
use cohere_technology_skillb.Queue.Segment.{Entries, entry, nil, cons}
use cohere_technology_skillb.Qtest.{Tester, World}
use cohere_technology_skillb.Qtest.Commands.{
  do_insert_head, do_insert_tail, do_remove_head, do_remove_head_quiet, do_free, failed, tolerated,
}
use cohere_technology_skillb.Qtest.State.{IsTester}
use cohere_technology_skillb.Qtest.Insert.{do_insert_head-cons, do_insert_tail-snoc}
use cohere_technology_skillb.Qtest.Remove.{do_remove_head-tail}
use cohere_technology_skillb.Qtest.Size.{do_remove_head_quiet-never}
use cohere_technology_skillb.Qtest.Free.{Freed, do_free-Freed}

-- "ab" and "c", in the queue at address 10.
abbrev strings_two : Entries
strings_two = entry 1 2 (97 ∷ 98 ∷ []) ∷ entry 3 4 (99 ∷ []) ∷ []

abbrev queue_two : Queue
queue_two = queue_of 1 3 2

abbrev heap_two : QueueHeap
heap_two = record {
  cell =
      write
        (write
          (write (write (write (λ _. none) 10 (some (queue queue_two))) 1 (some (ele (ele_of 2 3))))
            2 (some (text (97 ∷ 98 ∷ 0 ∷ []))))
          3 (some (ele (ele_of 4 null))))
        4 (some (text (99 ∷ 0 ∷ [])));
  supply = 5 ∷ 6 ∷ [];
  live = 5;
}

abbrev tester : Tester
tester = record {
  heap = heap_two;
  q = 10;
  qcnt = 2;
  big_queue_size = 30;
  fail_limit = 2;
  fail_count = 0;
  string_length = 100;
  verblevel = 4;
  cautious_mode = true;
  noallocate_mode = false;
  error_occurred = false;
}

-- strtol reads a decimal digit.
abbrev digit : List ℕ → ℕ × List ℕ
digit [] = (0, [])
digit (c ∷ s) = (c - b'0', s)

abbrev world : World
world = record { time = 1000; interrupted = λ h. h; indeterminate = false; strtol = digit }

two-IsTester : IsTester tester strings_two
unfolding write
two-IsTester = record {
  s = queue_two;
  is = record {
    object = ground arith;
    chain =
        cons (ground arith) (ground arith) (omega arith) refl refl
          (cons (ground arith) (ground arith) (omega arith) refl refl nil);
    last = refl;
    count = refl;
  };
  counted = refl;
  few = omega arith;
  no_error = refl;
}

two-Blocks : TwoBlocks heap_two 5 6 []
unfolding write
two-Blocks = record {
  supplied = refl;
  first = ground arith;
  second = ground arith;
  apart = omega arith;
}

do_insert_head-cons_example :
    (t' : Tester) × ((do_insert_head world ([] ∷ (100 ∷ []) ∷ []) tester ≡ some (true, t'))
      × IsTester t' (entry 5 6 (100 ∷ []) ∷ strings_two))
do_insert_head-cons_example =
    do_insert_head-cons world [] (100 ∷ []) two-IsTester two-Blocks (omega arith) (omega arith)

do_insert_tail-snoc_example :
    (t' : Tester) × ((do_insert_tail world ([] ∷ (100 ∷ []) ∷ []) tester ≡ some (true, t'))
      × IsTester t' (strings_two ++ (entry 5 6 (100 ∷ []) ∷ [])))
do_insert_tail-snoc_example =
    do_insert_tail-snoc world [] (100 ∷ []) two-IsTester two-Blocks (omega arith) (omega arith)

do_remove_head-tail_example :
    (good : Bool) × ((t' : Tester) × ((do_remove_head world ([] ∷ (97 ∷ 98 ∷ []) ∷ []) tester
          ≡ some (good, t'))
        × ((good ≡ true) ↔ (take {A = ℕ} 100 (97 ∷ 98 ∷ []) ≡ take 100 (97 ∷ 98 ∷ [])))
        × IsTester t' (entry 3 4 (99 ∷ []) ∷ [])))
do_remove_head-tail_example =
    do_remove_head-tail world [] (97 ∷ 98 ∷ []) two-IsTester (omega arith) (omega arith)

do_remove_head_quiet-never_example :
    do_remove_head_quiet world ([] ∷ []) tester ≡ some (tolerated (failed tester), failed tester)
do_remove_head_quiet-never_example = do_remove_head_quiet-never world [] two-IsTester

do_free-Freed_example :
    (t' : Tester) × ((do_free world ([] ∷ []) tester ≡ some (true, t')) × Freed t' 10 strings_two)
do_free-Freed_example = do_free-Freed world [] two-IsTester refl (omega arith)
