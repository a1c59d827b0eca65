-- ===== src/Steque/Operations.antt =====
-- The operations of steque.c on a well-formed steque.
use cohere_technology_skillb.Prelude.{
  ◌+◌, ◌^◌, ◌<◌, ◌≡◌, refl, sym, false, some, List, [], ◌∷◌, ◌++◌, arith, ◌==◌, ==-ne, ==-self,
  length, length-append,
}
use cohere_technology_skillb.Memory.{Ptr, null, write, load, store, malloc}
use cohere_technology_skillb.Memory.Rules.{Fresh, Returns, returns}
use cohere_technology_skillb.Steque.Chain
use cohere_technology_skillb.Steque.Chain.{Nodes, ◌∈◌, ◌∉◌, Chain, nil, cons, IsSteque, last_at}
use cohere_technology_skillb.Steque.{node, Steque, NodeHeap, steque_enqueue, steque_push}

-- An operation leaves the steque `xs'`, and changes only what `xs` and `xs'` hold; `used` of the
-- addresses that malloc returns are gone.
pub record Leaves (h : NodeHeap) (xs xs' : Nodes) (used : List Ptr) (t : Steque) (g : NodeHeap)
    : Type 0 where
  pub is : IsSteque g t xs'
  pub same : (a : Ptr) → a ∉ xs → a ∉ xs' → g.cell a ≡ h.cell a
  pub supply : h.supply ≡ used ++ g.supply

module _ {h : NodeHeap} {t : Steque} {xs : Nodes} {p : Ptr} {rest : List Ptr} (item : Ptr)
    (is : IsSteque h t xs) (fresh : Fresh h p) (sup : h.supply ≡ p ∷ rest)
    (small : length xs + 1 < 2 ^ 31) where
  pub push-cons : Returns (Leaves h xs ((p, item) ∷ xs) (p ∷ [])) (steque_push t item h)
  unfolding steque_push malloc load store write
  push-cons =
      let p0 = ==-ne p null fresh.ne_null in
      let out = Chain.not-mem_of_none p is.chain fresh.unused in
      simp (sup, p0, ==-self, malloc, load, store, write)
        (returns (record {
          is = record {
            chain =
                cons (record { ne_null = fresh.ne_null; holds = ground arith }) out
                  (Chain.frame is.chain (ground arith));
            last = Chain.last-cons t.back p is.chain is.last;
            count = omega (arith, is.count);
          };
          same = λ a o o'. ground arith;
          supply = sup;
        }))

pub enqueue-snoc :
    {h : NodeHeap} {t : Steque} {p : Ptr} {rest : List Ptr} (xs : Nodes) (item : Ptr)
    → IsSteque h t xs
    → Fresh h p
    → h.supply ≡ p ∷ rest
    → length xs + 1 < 2 ^ 31
    → Returns (Leaves h xs (xs ++ ((p, item) ∷ [])) (p ∷ [])) (steque_enqueue t item h)
unfolding steque_enqueue malloc load store write
enqueue-snoc {h} {t} {p} [] item is fresh sup small =
    let p0 = ==-ne p null fresh.ne_null in
    let b0 : t.back ≡ null = is.last in
    simp (sup, p0, b0, ==-self, malloc, load, store, write)
      (returns (record {
        is = record {
          chain = cons (record { ne_null = fresh.ne_null; holds = ground arith }) refl nil;
          last = refl;
          count = omega (arith, is.count);
        };
        same = λ a o o'. ground arith;
        supply = sup;
      }))
enqueue-snoc {h} {t} {p} (x ∷ xs) item is fresh sup small =
    let p0 = ==-ne p null fresh.ne_null in
    let (i, link) = Chain.last-link null is.chain refl in
    let b0 : (t.back == null) ≡ false = ground (arith, is.last, link.ne_null) in
    let bh : h.cell t.back ≡ some (node i null) = ground (arith, is.last, link.holds) in
    let bp : (t.back == p) ≡ false = ground (arith, bh, fresh.unused) in
    let out = Chain.not-mem_of_none p is.chain fresh.unused in
    let mem = Chain.last-mem null is.chain refl in
    simp (sup, p0, b0, bh, bp, ==-self, malloc, load, store, write)
      (returns (record {
        is = record {
          chain =
              Chain.splice
                (cons (record { ne_null = fresh.ne_null; holds = ground arith }) refl nil) null i
                is.chain refl
                (record {
                  from = link.holds;
                  to = ground (arith, is.last);
                  same = λ a m na. ground (arith, is.last);
                })
                λ a m. ground (arith, out);
          last = sym (Chain.last-append null (x ∷ xs) p item);
          count = omega (arith, is.count, length-append (x ∷ xs) ((p, item) ∷ []));
        };
        same = λ a o o'. ground (arith, is.last, Chain.has-append a (x ∷ xs) ((p, item) ∷ []));
        supply = sup;
      }))
