-- ===== src/Steque/Refine/Calls.antt =====
-- Each call of steque.c refines the specification, and so does every sequence of calls.
use cohere_technology_skillb.Prelude.{
  ℕ, suc, ◌+◌, ◌^◌, ◌<◌, ◌≤◌, ◌≡◌, refl, ap, Option, none, some, List, [], ◌∷◌, ◌++◌, arith, length,
  length-append,
}
use mathlib.Core.Path.{subst}
use mathlib.Core.Option
use cohere_technology_skillb.Memory.{Ptr, Run, pure, and_then}
use cohere_technology_skillb.Memory.Rules
use cohere_technology_skillb.Memory.Rules.{Points, Fresh, Returns, returns}
use cohere_technology_skillb.Steque.Chain
use cohere_technology_skillb.Steque.Chain.{Nodes, ◌∈◌, ◌∉◌, Chain, nil, cons, IsSteque, items}
use cohere_technology_skillb.Steque.Operations.{push-cons, enqueue-snoc}
use cohere_technology_skillb.Steque.Pop.{pop-cons, cycle-rotate, cycle-empty}
use cohere_technology_skillb.Steque.Deque.{Call, enqueue, push, pop, cycle, front, call}
use cohere_technology_skillb.Steque.Deque
use cohere_technology_skillb.Steque.{Node, Steque, NodeHeap, steque_pop, steque_front}
use cohere_technology_skillb.Steque.Refine.{
  perform, perform_all, AllFresh, Holds, Refines, Holds-grow, Holds-keep,
}

module _ {h : NodeHeap} {t : Steque} (xs : Nodes) (k : ℕ) (is : IsSteque h t xs)
    (fresh : AllFresh h h.supply) (enough : suc k ≤ length h.supply)
    (small : length xs + suc k < 2 ^ 31) where
  old : (a : Ptr) → h.cell a ≡ none → a ∉ xs
  old a unused = Chain.not-mem_of_none a is.chain unused

  -- What the call `c` is specified to do, it does.
  abbrev Call-ok : Call → Type 0
  Call-ok c = Refines k (call c (items xs)) (perform c t h)

  push-ok : (i p : Ptr) (l : List Ptr) → h.supply ≡ p ∷ l → Call-ok (push i)
  push-ok i p l sup =
      let f : AllFresh h (p ∷ l) = subst (AllFresh h) sup fresh in
      Rules.bind (push-cons i is f.0 sup (omega arith)) λ t' g left. returns (
        refl,
        Holds-grow k fresh sup enough small refl (λ a u ne. ground (arith, old a u)) old left,
      )

  enqueue-ok : (i p : Ptr) (l : List Ptr) → h.supply ≡ p ∷ l → Call-ok (enqueue i)
  enqueue-ok i p l sup =
      let f : AllFresh h (p ∷ l) = subst (AllFresh h) sup fresh in
      Rules.bind (enqueue-snoc xs i is f.0 sup (omega arith)) λ t' g left. returns (
        refl,
        rw (← Chain.items-append xs ((p, i) ∷ [])) (
            Holds-grow k fresh sup enough small (omega (arith, length-append xs ((p, i) ∷ [])))
              (λ a u ne. rw (Chain.has-append a xs ((p, i) ∷ []), old a u, ne)) old left),
      )

abbrev Fits : NodeHeap → Nodes → ℕ → Type 0
Fits h xs k = AllFresh h h.supply × (suc k ≤ length h.supply) × (length xs + suc k < 2 ^ 31)

pop-ok :
    {h : NodeHeap} {t : Steque} (xs : Nodes) (k : ℕ)
    → IsSteque h t xs
    → Fits h xs k
    → Refines k (call pop (items xs)) (perform pop t h)
unfolding steque_pop
pop-ok [] k is f = simp (Chain.eq_of_nil is.chain)
pop-ok ((p, i) ∷ xs) k is (fresh, enough, small) =
    Rules.bind (pop-cons is (omega arith)) λ (j, t') g popped. returns (
      ground (arith, popped.item),
      Holds-keep k fresh enough small (omega arith)
          (λ a u. let o = Chain.not-mem_of_none a is.chain u in (o, ground arith)) popped.leaves,
    )

cycle-ok :
    {h : NodeHeap} {t : Steque} (xs : Nodes) (k : ℕ)
    → IsSteque h t xs
    → Fits h xs k
    → Refines k (call cycle (items xs)) (perform cycle t h)
cycle-ok [] k is (fresh, enough, small) = simp (cycle-empty is) (
    returns (
      refl,
      record {
        nodes = [];
        is = is;
        view = refl;
        fresh = fresh;
        enough = omega arith;
        small = omega arith;
      },
    ))
cycle-ok {h} ((p, i) ∷ xs) k is (fresh, enough, small) = Rules.bind (cycle-rotate is) λ t' g left.
    returns (
      refl,
      rw (← Chain.items-append xs ((p, i) ∷ [])) (
          Holds-keep k fresh enough small (omega (arith, length-append xs ((p, i) ∷ [])))
            (λ a u.
              let o = Chain.not-mem_of_none a is.chain u in
              (o, rw (Chain.has-append a xs ((p, i) ∷ [])) (ground arith)))
            left),
    )

front-ok :
    {h : NodeHeap} {t : Steque} (xs : Nodes) (k : ℕ)
    → IsSteque h t xs
    → Fits h xs k
    → Refines k (call front (items xs)) (perform front t h)
unfolding steque_front
front-ok [] k is f = simp (Chain.eq_of_nil is.chain)
front-ok {h} {t} ((p, i) ∷ xs) k is (fresh, enough, small) = go is.chain refl
  where
    go :
        {f : Ptr}
        → Chain h f ((p, i) ∷ xs)
        → t.front ≡ f
        → Refines k (call front (i ∷ items xs)) (perform front t h)
    go (cons at out r) e =
        simp (e, Rules.not_null at, Rules.load-ok at)
          (returns (
            refl,
            record {
              nodes = (p, i) ∷ xs;
              is = is;
              view = refl;
              fresh = fresh;
              enough = omega arith;
              small = omega arith;
            },
          ))

supply-cons : (l : List Ptr) → 0 < length l → (p : Ptr) × (rest : List Ptr) × (l ≡ p ∷ rest)
supply-cons [] h = absurd (omega arith)
supply-cons (p ∷ rest) h = (p, rest, refl)

-- One call.
pub perform-call :
    {h : NodeHeap} {t : Steque} {xs : List Ptr} (k : ℕ) (c : Call)
    → Holds h t xs (suc k)
    → Refines k (call c xs) (perform c t h)
perform-call {h} {t} k c holds = subst (λ ys. Refines k (call c ys) (perform c t h)) view (by c)
  where
    open holds use {nodes, is, view, fresh, enough, small}

    next : (p : Ptr) × (rest : List Ptr) × (h.supply ≡ p ∷ rest)
    next = supply-cons h.supply (omega arith)

    by : (c : Call) → Refines k (call c (items nodes)) (perform c t h)
    by (enqueue i) = enqueue-ok nodes k is fresh enough small i next.0 next.1 next.2
    by (push i) = push-ok nodes k is fresh enough small i next.0 next.1 next.2
    by pop = pop-ok nodes k is (fresh, enough, small)
    by cycle = cycle-ok nodes k is (fresh, enough, small)
    by front = front-ok nodes k is (fresh, enough, small)

-- The results of the calls that follow, behind what has been returned so far.
Refines-more :
    (out : List Ptr) (r : Option (List Ptr × List Ptr)) (m : Run Node (Steque × List Ptr))
    → Refines 0 r m
    → Refines 0
        (Option.map (λ (ys, more). (ys, out ++ more)) r)
        (and_then m λ (t, more). pure (t, out ++ more))
Refines-more out none m e = rw e
Refines-more out (some (ys, more)) m p =
    Rules.bind p λ (t, more') g (e, holds). returns (ap (λ l. out ++ l) e, holds)

Refines-then :
    (cs : List Call) (r : Option (List Ptr × List Ptr)) (m : Run Node (Steque × List Ptr))
    → ((h : NodeHeap) (t : Steque) (xs : List Ptr)
        → Holds h t xs (length cs)
        → Refines 0 (Deque.calls cs xs) (perform_all cs t h))
    → Refines (length cs) r m
    → Refines 0 (Deque.continue (Deque.calls cs) r) (
        and_then m λ (t, out) h. and_then (perform_all cs t h) λ (t', more). pure (t', out ++ more))
unfolding Deque.continue
Refines-then cs none m rest e = rw e
Refines-then cs (some (xs, out)) m rest p = go p
  where
    go :
        {r : Run Node (Steque × List Ptr)}
        → Refines (length cs) (some (xs, out)) r
        → Refines 0 (Deque.continue (Deque.calls cs) (some (xs, out))) (
            and_then r
              λ (t, out) h. and_then (perform_all cs t h) λ (t', more). pure (t', out ++ more))
    go (returns {a = (t, out')} {h} (e, holds)) =
        rw e (Refines-more out (Deque.calls cs xs) _ (rest h t xs holds))

-- For every sequence of calls, on a well-formed steque and with an address for each call at hand,
-- the C code returns what the specification returns and holds its items, or exits where the
-- specification underflows.
pub perform_all-calls :
    {h : NodeHeap} {t : Steque} {xs : List Ptr} (cs : List Call)
    → Holds h t xs (length cs)
    → Refines 0 (Deque.calls cs xs) (perform_all cs t h)
unfolding perform_all Deque.calls
perform_all-calls [] holds = returns (refl, holds)
perform_all-calls {h} {t} {xs} (c ∷ cs) holds =
    Refines-then cs (call c xs) _ (λ h' t' xs'. perform_all-calls {h = h'} {t = t'} {xs = xs'} cs)
      (perform-call (length cs) c holds)
