-- ===== src/Queue/Remove.antt =====
-- q_remove_head of queue.c.
use cohere_technology_skillb.Prelude.{
  ℕ, suc, ◌+◌, ◌-◌, ◌%◌, ◌^◌, ◌<◌, ◌≡◌, ◌≢◌, refl, Bool, true, false, Option, none, some, List, [],
  ◌∷◌, arith, ◌==◌, ==-self, length, ◌∙◌, ◌⊎◌, inl, inr, Bool-cases,
}
use cohere_technology_skillb.Memory.{Ptr, null, write, load, store, free, ok}
use cohere_technology_skillb.Memory.Rules
use cohere_technology_skillb.Memory.Rules.{Points, Returns, returns}
use cohere_technology_skillb.Queue.Strings.{Copied, strncpy-Copied}
use cohere_technology_skillb.Queue.Segment
use cohere_technology_skillb.Queue.Segment.{
  Entry, Entries, entry, ◌∈◌, ◌∉◌, Seg, cons, IsQueue, last_at, nonempty,
}
use cohere_technology_skillb.Queue.{Queue, queue, queue_of, QueueHeap, pred_size, q_remove_head}

-- What a removal leaves: the queue object with the next element as its head and the tail pointer
-- as it was, the rest of the chain, and two freed blocks.
pub record Removed (h : QueueHeap) (q : Ptr) (s : Queue) (x : Entry) (xs : Entries) (g : QueueHeap)
    : Type 0 where
  pub head : Ptr
  pub object : Points g q (queue (queue_of head s.tail (length xs)))
  pub chain : Seg g null head xs
  pub freed : (g.cell x.at ≡ none) × (g.cell x.str ≡ none)
  pub supply : g.supply ≡ h.supply
  pub same : (a : Ptr) → a ≢ q → a ∉ (x ∷ []) → g.cell a ≡ h.cell a

-- The buffer holds the string, cut to `n` bytes, and is as before behind the terminator.
pub record Stored (buf s : List ℕ) (n : ℕ) (r : Bool × Option (List ℕ)) : Type 0 where
  pub out : List ℕ
  pub result : r ≡ (true, some out)
  pub copied : Copied buf s out n

remove-Seg :
    {h : QueueHeap} {q p : Ptr} {s : Queue} {x : Entry} {xs : Entries} (buf : List ℕ) (n : ℕ)
    → Seg h null p (x ∷ xs)
    → s.head ≡ p
    → Points h q (queue s)
    → s.size ≡ suc (length xs)
    → length xs + 1 < 2 ^ 31
    → n < length buf
    → suc n < 2 ^ 64
    → Returns
        (λ r g. Stored buf x.bytes n r × Removed h q s x xs g)
        (q_remove_head q (some buf) (suc n) h)
unfolding q_remove_head load store free write
remove-Seg {h} {q} {s} {xs} buf n (cons {p} {v} {n = nx} {s = bytes} e t z out out' r) hd object
      count small fits big =
    let (mid, o, eq, eq', c) = strncpy-Copied n buf bytes z fits in
    let q0 = Rules.not_null object in
    let p0 = Rules.not_null e in
    let v0 = Rules.not_null t in
    let qp : (q == p) ≡ false = ground (arith, object.holds, e.holds) in
    let pq : (p == q) ≡ false = ground (arith, object.holds, e.holds) in
    let qv : (q == v) ≡ false = ground (arith, object.holds, t.holds) in
    let vq : (v == q) ≡ false = ground (arith, object.holds, t.holds) in
    let pv : (p == v) ≡ false = ground (arith, e.holds, t.holds) in
    let sizes : (s.size + 2 ^ 32 - 1) % 2 ^ 32 ≡ length xs = omega arith in
    let ps : pred_size (suc n) ≡ n = omega arith in
    simp
      (
        q0, object.holds, hd, p0, v0, qp, pq, qv, vq, pv, e.holds, t.holds, ps, eq, eq', ==-self,
        load, store, free, write,
      )
      (returns (
        record { out = o; result = refl; copied = c },
        record {
          head = nx;
          object = record { ne_null = object.ne_null; holds = ground (arith, sizes) };
          chain = Segment.frame r λ a i. ground (arith, Segment.not-mem_of_queue q r object.holds);
          freed = (ground arith, ground arith);
          supply = refl;
          same = λ a aq o. ground arith;
        },
      ))

-- Removal from a queue that is not empty stores the first string in the buffer, within its bounds,
-- frees the element and its string, and leaves a queue of the others if there are any.
pub q_remove_head-cons :
    {h : QueueHeap} {q : Ptr} {s : Queue} {x : Entry} {xs : Entries} (buf : List ℕ) (n : ℕ)
    → IsQueue h q s (x ∷ xs)
    → length xs + 1 < 2 ^ 31
    → n < length buf
    → suc n < 2 ^ 64
    → Returns
        (λ r g.
          Stored buf x.bytes n r
          × Removed h q s x xs g
          × (nonempty xs ≡ true → (s' : Queue) × IsQueue g q s' xs))
        (q_remove_head q (some buf) (suc n) h)
q_remove_head-cons {q} {s} {x} {xs} buf n is small fits big =
    Rules.mono (remove-Seg buf n is.chain refl is.object is.count small fits big)
      λ r g (stored, removed). (
        stored,
        removed,
        λ ne. (
          _,
          record {
            object = removed.object;
            chain = removed.chain;
            last = is.last ∙ last-change xs ne;
            count = refl;
          },
        ),
      )
  where
    last-change : (ys : Entries) → nonempty ys ≡ true → last_at x.at ys ≡ last_at null ys
    last-change [] ne = absurd (cc)
    last-change (y ∷ ys) ne = refl

-- On a queue without elements, or without a buffer, nothing is removed and nothing changes.
pub q_remove_head-none :
    {h : QueueHeap} {q : Ptr} {s : Queue} {xs : Entries} (sp : Option (List ℕ)) (n : ℕ)
    → IsQueue h q s xs
    → (xs ≡ []) ⊎ (sp ≡ none)
    → q_remove_head q sp n h ≡ ok (false, sp) h
unfolding q_remove_head load
q_remove_head-none {q} sp n is (inl e) =
    let q0 = Rules.not_null is.object in
    let hd : _ ≡ null = Segment.eq_of_nil (rw e at is.chain) in simp (q0, is.object.holds, hd)
q_remove_head-none {s} sp n is (inr e) =
    let q0 = Rules.not_null is.object in
    elim (Bool-cases (s.head == null)) [
      | inl t ↦ simp (q0, is.object.holds, t)
      | inr t ↦ simp (q0, is.object.holds, t, e)
    ]
