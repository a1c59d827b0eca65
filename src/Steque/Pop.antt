-- ===== src/Steque/Pop.antt =====
-- steque_pop and steque_cycle of steque.c on a well-formed steque.
use cohere_technology_skillb.Prelude.{
  suc, ◌+◌, ◌^◌, ◌<◌, ◌≡◌, refl, sym, false, none, some, [], ◌∷◌, ◌++◌, arith, ◌==◌, ==-self,
  length, length-append, if◌then◌else◌,
}
use cohere_technology_skillb.Memory.{Ptr, null, write, load, store, free, ok}
use cohere_technology_skillb.Memory.Rules
use cohere_technology_skillb.Memory.Rules.{Points, Fresh, Returns, returns}
use cohere_technology_skillb.Steque.Chain
use cohere_technology_skillb.Steque.Chain.{Nodes, ◌∈◌, ◌∉◌, Chain, nil, cons, IsSteque, last_at}
use cohere_technology_skillb.Steque.{node, Steque, NodeHeap, steque_pop, steque_cycle}
use cohere_technology_skillb.Steque.Operations.{Leaves}

-- The first node is freed and its item returned.
pub record Popped (h : NodeHeap) (p i : Ptr) (xs : Nodes) (r : Ptr × Steque) (g : NodeHeap)
    : Type 0 where
  pub item : r.0 ≡ i
  pub leaves : Leaves h ((p, i) ∷ xs) xs [] r.1 g
  pub freed : g.cell p ≡ none

last-tail :
    {h : NodeHeap} {n b : Ptr} {xs : Nodes} (p : Ptr)
    → Chain h n xs
    → b ≡ last_at p xs
    → (if n == null then null else b) ≡ last_at null xs
last-tail p nil e = refl
last-tail p (cons at o s) e = ground (arith, at.ne_null, e)

pop-Chain :
    {h : NodeHeap} {t : Steque} {p f i : Ptr} {xs : Nodes}
    → Chain h f ((p, i) ∷ xs)
    → t.front ≡ f
    → t.back ≡ last_at p xs
    → t.size ≡ suc (length xs)
    → length xs + 1 < 2 ^ 31
    → Returns (Popped h p i xs) (steque_pop t h)
unfolding steque_pop load free write
pop-Chain {h} {t} (cons {p} {n} {xs} at out r) hd last count small =
    let p0 = Rules.not_null at in
    simp (hd, p0, at.holds, load, free, write)
      (returns (record {
        item = refl;
        leaves = record {
          is = record {
            chain = Chain.frame r (ground arith);
            last = last-tail p r last;
            count = omega (arith, count);
          };
          same = λ a o o'. ground arith;
          supply = refl;
        };
        freed = ground arith;
      }))

pub pop-cons :
    {h : NodeHeap} {t : Steque} {p i : Ptr} {xs : Nodes}
    → IsSteque h t ((p, i) ∷ xs)
    → length xs + 1 < 2 ^ 31
    → Returns (Popped h p i xs) (steque_pop t h)
pop-cons is small = pop-Chain is.chain refl is.last is.count small

cycle-Chain :
    {h : NodeHeap} {t : Steque} {p f i : Ptr} {xs : Nodes}
    → Chain h f ((p, i) ∷ xs)
    → t.front ≡ f
    → t.back ≡ last_at p xs
    → t.size ≡ suc (length xs)
    → Returns (Leaves h ((p, i) ∷ xs) (xs ++ ((p, i) ∷ [])) []) (steque_cycle t h)
unfolding steque_cycle load store write
cycle-Chain {t} {i} (cons {p} {xs = []} at out nil) hd last count =
    let p0 = Rules.not_null at in
    simp (hd, last, p0, at.holds, ==-self, load, store, write)
      (returns (record {
        is = record {
          chain = cons (record { ne_null = at.ne_null; holds = ground arith }) refl nil;
          last = refl;
          count = count;
        };
        same = λ a o o'. ground arith;
        supply = refl;
      }))
cycle-Chain {h} {t} {i} (cons {p} {n} {xs = x ∷ xs} at out r) hd last count =
    let p0 = Rules.not_null at in
    let (j, link) = Chain.last-link p r refl in
    let mem = Chain.last-mem p r refl in
    let b0 : (t.back == null) ≡ false = ground (arith, last, link.ne_null) in
    let bh : h.cell t.back ≡ some (node j null) = ground (arith, last, link.holds) in
    let pb : (p == t.back) ≡ false = ground (arith, last) in
    simp (hd, p0, b0, bh, pb, at.holds, load, store, write)
      (returns (record {
        is = record {
          chain =
              Chain.splice (cons (record { ne_null = at.ne_null; holds = ground arith }) refl nil) p
                j r refl
                (record {
                  from = link.holds;
                  to = ground (arith, last);
                  same = λ a m na. ground (arith, last);
                })
                λ a m. ground arith;
          last = sym (Chain.last-append null (x ∷ xs) p i);
          count = omega (arith, count, length-append (x ∷ xs) ((p, i) ∷ []));
        };
        same = λ a o o'. ground (arith, last);
        supply = refl;
      }))

pub cycle-rotate :
    {h : NodeHeap} {t : Steque} {p i : Ptr} {xs : Nodes}
    → IsSteque h t ((p, i) ∷ xs)
    → Returns (Leaves h ((p, i) ∷ xs) (xs ++ ((p, i) ∷ [])) []) (steque_cycle t h)
cycle-rotate is = cycle-Chain is.chain refl is.last is.count

pub cycle-empty : {h : NodeHeap} {t : Steque} → IsSteque h t [] → steque_cycle t h ≡ ok t h
unfolding steque_cycle
cycle-empty is = rw is.last
