-- ===== src/Steque/Tests.antt =====
-- Runs of steque.c on concrete memories, and the theorems at concrete inputs.
use cohere_technology_skillb.Prelude.{◌≡◌, refl, none, some, List, [], ◌∷◌, arith}
use cohere_technology_skillb.Memory.{null, write, exit}
use cohere_technology_skillb.Memory.Rules.{Returns}
use cohere_technology_skillb.Steque.Chain.{Nodes, nil, cons, IsSteque}
use cohere_technology_skillb.Steque.{
  node, steque, NodeHeap, steque_init, steque_pop, steque_destroy,
}
use cohere_technology_skillb.Steque.Deque
use cohere_technology_skillb.Steque.Deque.{Call, enqueue, push, pop, cycle, front}
use cohere_technology_skillb.Steque.Refine.{perform_all, Holds, Refines}
use cohere_technology_skillb.Steque.Refine.Calls.{perform_all-calls}
use cohere_technology_skillb.Steque.Destroy.{Destroyed, steque_destroy-Destroyed}

abbrev program : List Call
program = enqueue 7 ∷ push 8 ∷ cycle ∷ front ∷ pop ∷ pop ∷ []

abbrev empty_heap : NodeHeap
empty_heap = record { cell = λ _. none; supply = 1 ∷ 2 ∷ 3 ∷ 4 ∷ 5 ∷ 6 ∷ []; live = 0 }

empty-Holds : Holds empty_heap (steque null null 0) [] 6
empty-Holds = record {
  nodes = [];
  is = record { chain = nil; last = refl; count = refl };
  view = refl;
  fresh = ground arith;
  enough = omega arith;
  small = omega arith;
}

specified : Deque.calls program [] ≡ some ([], 7 ∷ 7 ∷ 8 ∷ [])
unfolding Deque.calls
specified = refl

perform_all-calls_example :
    Refines 0 (Deque.calls program []) (perform_all program (steque null null 0) empty_heap)
perform_all-calls_example = perform_all-calls program empty-Holds

abbrev two : Nodes
two = (1, 7) ∷ (2, 8) ∷ []

abbrev two_heap : NodeHeap
two_heap = record {
  cell = write (write (λ _. none) 1 (some (node 7 2))) 2 (some (node 8 null));
  supply = [];
  live = 2;
}

two-IsSteque : IsSteque two_heap (steque 1 2 2) two
unfolding write
two-IsSteque = record {
  chain = cons (ground arith) refl (cons (ground arith) refl nil);
  last = refl;
  count = refl;
}

steque_destroy-Destroyed_example :
    Returns (Destroyed two_heap two) (steque_destroy 3 (steque 1 2 2) two_heap)
steque_destroy-Destroyed_example =
    steque_destroy-Destroyed 3 two two-IsSteque (omega arith) (omega arith)

underflow : (h : NodeHeap) → steque_pop steque_init h ≡ exit
unfolding steque_pop steque_init
underflow h = refl
