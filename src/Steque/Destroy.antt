-- ===== src/Steque/Destroy.antt =====
-- steque_destroy, steque_isempty and steque_size of steque.c.
use cohere_technology_skillb.Prelude.{
  ℕ, zero, suc, ◌<◌, ◌^◌, ◌≡◌, refl, true, false, none, [], ◌∷◌, arith, ◌==◌, length,
}
use cohere_technology_skillb.Memory.{Ptr}
use cohere_technology_skillb.Memory.Rules
use cohere_technology_skillb.Memory.Rules.{Returns, returns}
use cohere_technology_skillb.Steque.Chain.{Nodes, ◌∈◌, ◌∉◌, IsSteque}
use cohere_technology_skillb.Steque.Pop.{pop-cons}
use cohere_technology_skillb.Steque.{Steque, NodeHeap, steque_isempty, steque_size, steque_destroy}

-- steque_size is the number of items, and steque_isempty says whether there are none.
pub observers :
    {h : NodeHeap} {t : Steque} (xs : Nodes)
    → IsSteque h t xs
    → (steque_size t ≡ length xs) × (steque_isempty t ≡ (length xs == 0))
unfolding steque_size steque_isempty
observers xs is = (is.count, rw is.count)

-- Every node is freed, the steque is empty, and nothing else has changed.
abbrev pub Destroyed : NodeHeap → Nodes → Steque → NodeHeap → Type 0
Destroyed h xs t g =
    IsSteque g t []
    × ((a : Ptr) → a ∈ xs → g.cell a ≡ none)
    × ((a : Ptr) → a ∉ xs → g.cell a ≡ h.cell a)

-- With fuel for each node the loop of steque_destroy ends, and has freed every node.
pub steque_destroy-Destroyed :
    (k : ℕ) {h : NodeHeap} {t : Steque} (xs : Nodes)
    → IsSteque h t xs
    → length xs < k
    → length xs < 2 ^ 31
    → Returns (Destroyed h xs) (steque_destroy k t h)
unfolding steque_destroy steque_isempty
steque_destroy-Destroyed zero xs is fuel small = absurd (omega arith)
steque_destroy-Destroyed (suc k) {t} [] is fuel small =
    let none_left : (t.size == 0) ≡ true = ground (arith, is.count) in
    simp none_left (returns (is, (λ a i. cc), λ a o. refl))
steque_destroy-Destroyed (suc k) {t} ((p, i) ∷ xs) is fuel small =
    let some_left : (t.size == 0) ≡ false = ground (arith, is.count) in
    simp some_left (
      Rules.bind (pop-cons is (omega arith)) λ (j, t') g popped.
        Rules.mono (steque_destroy-Destroyed k xs popped.leaves.is (omega arith) (omega arith))
          λ t'' g' (empty, gone, same). (
            empty,
            (λ a i. ground (arith, gone a, same a, popped.freed)),
            λ a o. ground (arith, same a, popped.leaves.same a),
          ))
