-- ===== src/Steque/Refine.antt =====
-- steque.c implements the specification of Deque, for every sequence of calls.
pub mod Calls
use cohere_technology_skillb.Prelude.{
  ℕ, suc, ◌+◌, ◌-◌, ◌%◌, ◌^◌, ◌<◌, ◌≤◌, ◌≡◌, ◌≢◌, refl, sym, ap, Bool, true, false, ◌||◌, Option,
  none, some, List, [], ◌∷◌, ◌++◌, arith, ◌==◌, ==-ne, ==-self, length, length-append, ◌∙◌,
  Bool-cases, inl, inr,
}
use mathlib.Core.Path.{subst}
use mathlib.Core.Option
use cohere_technology_skillb.Memory.{
  Ptr, null, Heap, Run, exit, Cmd, pure, ◌>>=◌, load, and_then, ok,
}
use cohere_technology_skillb.Memory.Rules
use cohere_technology_skillb.Memory.Rules.{Points, Fresh, Returns, returns}
use cohere_technology_skillb.Steque.Chain
use cohere_technology_skillb.Steque.Chain.{Nodes, ◌∈◌, ◌∉◌, Chain, nil, cons, IsSteque, items}
use cohere_technology_skillb.Steque.Operations.{Leaves, push-cons, enqueue-snoc}
use cohere_technology_skillb.Steque.Pop.{Popped, pop-cons, cycle-rotate, cycle-empty}
use cohere_technology_skillb.Steque.Deque.{Call, enqueue, push, pop, cycle, front, call}
use cohere_technology_skillb.Steque.Deque
use cohere_technology_skillb.Steque.{
  Node, Steque, NodeHeap, steque_enqueue, steque_push, steque_pop, steque_cycle, steque_front,
}

-- A call of the C function, with what it returns.
abbrev pub perform : Call → Steque → Cmd Node (Steque × List Ptr)
perform (enqueue i) t = do t ← steque_enqueue t i; pure (t, [])
perform (push i) t = do t ← steque_push t i; pure (t, [])
perform pop t = do (i, t) ← steque_pop t; pure (t, i ∷ [])
perform cycle t = do t ← steque_cycle t; pure (t, [])
perform front t = do i ← steque_front t; pure (t, i ∷ [])

pub perform_all : List Call → Steque → Cmd Node (Steque × List Ptr)
perform_all [] t = pure (t, [])
perform_all (c ∷ cs) t = do
  (t, out) ← perform c t
  (t, more) ← perform_all cs t
  pure (t, out ++ more)

abbrev among : Ptr → List Ptr → Bool
among a [] = false
among a (p ∷ l) = (a == p) || among a l

-- The addresses that malloc will return are distinct and unused.
abbrev pub AllFresh : NodeHeap → List Ptr → Type 0
AllFresh h [] = Unit
AllFresh h (p ∷ l) = Fresh h p × (among p l ≡ false) × AllFresh h l

AllFresh-unused :
    (h : NodeHeap) (l : List Ptr) (a : Ptr) → AllFresh h l → among a l ≡ true → h.cell a ≡ none
AllFresh-unused h [] a f m = cc
AllFresh-unused h (p ∷ l) a (f, out, fs) m = ground (arith, f.unused, AllFresh-unused h l a fs)

AllFresh-frame :
    (h g : NodeHeap) (l : List Ptr)
    → AllFresh h l
    → ((a : Ptr) → among a l ≡ true → g.cell a ≡ h.cell a)
    → AllFresh g l
AllFresh-frame h g [] f same = tt
AllFresh-frame h g (p ∷ l) (f, out, fs) same = (
  record { ne_null = f.ne_null; unused = ground (arith, same p, f.unused) },
  out,
  AllFresh-frame h g l fs λ a m. same a (ground arith),
)

-- The heap holds a steque of the items `xs`, and malloc has `k` addresses left.
pub record Holds (h : NodeHeap) (t : Steque) (xs : List Ptr) (k : ℕ) : Type 0 where
  pub nodes : Nodes
  pub is : IsSteque h t nodes
  pub view : items nodes ≡ xs
  pub fresh : AllFresh h h.supply
  pub enough : k ≤ length h.supply
  pub small : length nodes + k < 2 ^ 31

-- What the specification says of a run.
abbrev pub Refines : ℕ → Option (List Ptr × List Ptr) → Run Node (Steque × List Ptr) → Type 0
Refines k none r = r ≡ exit
Refines k (some (xs, out)) r = Returns (λ (t, out') g. (out' ≡ out) × Holds g t xs k) r

-- After a call that takes an address of the supply.
pub Holds-grow :
    {h g : NodeHeap} {t : Steque} {p : Ptr} {rest : List Ptr} {xs ys : Nodes} (k : ℕ)
    → AllFresh h h.supply
    → h.supply ≡ p ∷ rest
    → suc k ≤ length h.supply
    → length xs + suc k < 2 ^ 31
    → length ys ≡ suc (length xs)
    → ((a : Ptr) → h.cell a ≡ none → (a == p) ≡ false → a ∉ ys)
    → ((a : Ptr) → h.cell a ≡ none → a ∉ xs)
    → Leaves h xs ys (p ∷ []) t g
    → Holds g t (items ys) k
Holds-grow {h} {g} {t} {p} {rest} {xs} {ys} k fresh sup enough small len new old left =
    let fresh' : AllFresh h (p ∷ rest) = subst (AllFresh h) sup fresh in
    let sup' : g.supply ≡ rest = ground (arith, left.supply, sup) in
    record {
      nodes = ys;
      is = left.is;
      view = refl;
      fresh = subst (AllFresh g) (sym sup') (
          AllFresh-frame h g rest fresh'.2 λ a m.
            let unused = AllFresh-unused h rest a fresh'.2 m in
            left.same a (old a unused) (new a unused (ground (arith, fresh'.1))));
      enough = omega (arith, ap (length {A = Ptr}) sup', ap (length {A = Ptr}) sup);
      small = omega arith;
    }

-- After a call that allocates nothing.
pub Holds-keep :
    {h g : NodeHeap} {t : Steque} {xs ys : Nodes} (k : ℕ)
    → AllFresh h h.supply
    → suc k ≤ length h.supply
    → length xs + suc k < 2 ^ 31
    → length ys ≤ length xs
    → ((a : Ptr) → h.cell a ≡ none → (a ∉ xs) × (a ∉ ys))
    → Leaves h xs ys [] t g
    → Holds g t (items ys) k
Holds-keep {h} {g} {xs} {ys} k fresh enough small len out left = record {
  nodes = ys;
  is = left.is;
  view = refl;
  fresh = subst (AllFresh g) left.supply (
      AllFresh-frame h g h.supply fresh
        λ a m. let o = out a (AllFresh-unused h h.supply a fresh m) in left.same a o.0 o.1);
  enough = omega (arith, ap (length {A = Ptr}) left.supply);
  small = omega arith;
}
