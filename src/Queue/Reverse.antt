-- ===== src/Queue/Reverse.antt =====
-- q_reverse and q_size of queue.c.
use cohere_technology_skillb.Prelude.{
  ℕ, zero, suc, ◌<◌, ◌≡◌, ◌≢◌, refl, sym, true, false, ◌||◌, some, [], ◌∷◌, reverse, reverse_aux,
  arith, ◌==◌, length, length-reverse_aux, inl, inr, Bool-cases,
}
use cohere_technology_skillb.Memory.{Ptr, null, write, load, store, ok}
use cohere_technology_skillb.Memory.Rules
use cohere_technology_skillb.Memory.Rules.{Points, Returns, returns}
use cohere_technology_skillb.Queue.Segment
use cohere_technology_skillb.Queue.Segment.{
  Entry, Entries, entry, ◌∈◌, ◌∉◌, SameOutside, Seg, nil, cons, IsQueue, last_at, terminated,
}
use cohere_technology_skillb.Queue.{
  Queue, queue, queue_of, ele, ele_of, QueueHeap, reverse_loop, q_reverse, q_size,
}

-- `cur` heads what is left, `prev` what has been turned round.
reverse_loop-Seg :
    (k : ℕ) {h : QueueHeap} {prev cur : Ptr} {xs ys : Entries}
    → Seg h null cur xs
    → Seg h null prev ys
    → ((a : Ptr) → a ∈ xs → a ∉ ys)
    → length xs < k
    → Returns
        (λ p g.
          Seg g null p (reverse_aux xs ys)
          × SameOutside xs h g
          × (g.supply ≡ h.supply)
          × (g.live ≡ h.live))
        (reverse_loop k prev cur h)
unfolding reverse_loop load store write
reverse_loop-Seg zero s t apart fuel = absurd (omega arith)
reverse_loop-Seg (suc k) nil t apart fuel = returns (t, λ a o. refl, refl, refl)
reverse_loop-Seg (suc k) {h} {prev} {ys} (cons {p} {v} {n} {s = bytes} {xs} e t z out out' s) turned
      apart fuel =
    let pys : p ∉ ys = apart p (ground arith) in
    let vys : v ∉ ys = apart v (ground arith) in
    let vp : (v == p) ≡ false = ground (arith, e.holds, t.holds) in
    let g : QueueHeap = record h { cell = write h.cell p (some (ele (ele_of v prev))) } in
    let s' : Seg g null n xs = Segment.frame s (ground arith) in
    let head' : Points g p (ele (ele_of v prev)) = record {
      ne_null = e.ne_null;
      holds = ground arith;
    } in
    let text' : Points g v (terminated bytes) = record {
      ne_null = t.ne_null;
      holds = ground (arith, t.holds);
    } in
    let turned' : Seg g null p (entry p v bytes ∷ ys) =
      cons head' text' z pys vys (Segment.frame turned (ground arith)) in
    simp (Rules.not_null e, e.holds, load, store, write)
      (Rules.mono (reverse_loop-Seg k s' turned' (λ a i. ground (arith, apart a)) (omega arith))
        λ q g' (chain, same, sup, live). (chain, (λ a o. ground (arith, same a)), sup, live))

last_at-reverse :
    (d : Ptr) (xs ys : Entries) (y : Entry) → last_at d (reverse_aux xs (y ∷ ys)) ≡ last_at y.at ys
last_at-reverse d [] ys y = refl
last_at-reverse d (x ∷ xs) ys y = last_at-reverse d xs (y ∷ ys) x

-- The early return: one element at most.
reverse-short :
    {h : QueueHeap} {p : Ptr} {xs : Entries}
    → Seg h null p xs
    → (p == null || p == last_at null xs) ≡ true
    → reverse xs ≡ xs
reverse-short nil e = refl
reverse-short (cons e' t z out out' nil) e = refl
reverse-short (cons {p} e' t z out out' (cons e'' t' z' o o' s)) e =
    absurd (ground (arith, e'.ne_null, Segment.last-mem p (cons e'' t' z' o o' s) refl))

last-reverse :
    {h : QueueHeap} {p : Ptr} {xs : Entries}
    → Seg h null p xs
    → p ≢ null
    → p ≡ last_at null (reverse xs)
last-reverse nil ne = absurd (ne refl)
last-reverse (cons {p} {v} {s} {xs} e t z out out' r) ne =
    sym (last_at-reverse null xs [] (entry p v s))

-- The outcome of a reversal.
abbrev pub Reversed : QueueHeap → Ptr → Entries → QueueHeap → Type 0
Reversed h q xs g =
    ((s' : Queue) × IsQueue g q s' (reverse xs))
    × ((a : Ptr) → a ≢ q → a ∉ xs → g.cell a ≡ h.cell a)
    × (g.supply ≡ h.supply)
    × (g.live ≡ h.live)

module _ (k : ℕ) {h : QueueHeap} {q : Ptr} {s : Queue} {xs : Entries} (is : IsQueue h q s xs)
    (fuel : length xs < k) where
  reverse-long :
      (s.head == null || s.head == s.tail) ≡ false
      → Returns (λ _ g. Reversed h q xs g) (q_reverse k q h)
  unfolding q_reverse load store write
  reverse-long long =
      let q0 = Rules.not_null is.object in
      let s1 : Queue = record s { tail = s.head } in
      let g1 : QueueHeap = record h { cell = write h.cell q (some (queue s1)) } in
      let out = Segment.not-mem_of_queue q is.chain is.object.holds in
      let chain1 : Seg g1 null s.head xs = Segment.frame is.chain (ground arith) in
      simp (q0, is.object.holds, long, load, store, write)
        (Rules.bind (reverse_loop-Seg k chain1 nil (λ a i. refl) fuel)
          λ p g (chain, same, sup, live).
            let atq : g.cell q ≡ some (queue s1) = ground (arith, same q) in
            let out' = Segment.not-mem_of_queue q chain atq in
            simp (q0, atq, load, store, write)
              (returns (
                (
                  queue_of p s.head s.size,
                  record {
                    object = record { ne_null = is.object.ne_null; holds = ground arith };
                    chain = Segment.frame chain (ground arith);
                    last = last-reverse is.chain (ground arith);
                    count = omega (arith, is.count, length-reverse_aux xs []);
                  },
                ),
                (λ a aq o. ground (arith, same a)),
                sup,
                live,
              )))

  -- q_reverse turns the strings round by relinking the same elements: it allocates and frees
  -- nothing, and writes only to the queue object and its elements.
  pub q_reverse-reverse : Returns (λ _ g. Reversed h q xs g) (q_reverse k q h)
  unfolding q_reverse load
  q_reverse-reverse =
      let q0 = Rules.not_null is.object in
      elim (Bool-cases (s.head == null || s.head == s.tail)) [
        | inl short ↦
            let e : reverse xs ≡ xs = reverse-short is.chain (rw is.last at short) in
            simp (q0, is.object.holds, short) (returns ((s, rw e is), (λ a aq o. refl), refl, refl))
        | inr long ↦ reverse-long long
      ]

-- The size is the number of strings, also of an empty queue.
pub q_size-length :
    {h : QueueHeap} {q : Ptr} {s : Queue} {xs : Entries}
    → IsQueue h q s xs
    → q_size q h ≡ ok (length xs) h
unfolding q_size load
q_size-length {h} {q} {s} {xs} is = go is.chain refl is.count
  where
    go :
        {p : Ptr} {ys : Entries}
        → Seg h null p ys
        → s.head ≡ p
        → s.size ≡ length ys
        → q_size q h ≡ ok (length ys) h
    go nil e n = simp (Rules.not_null is.object, is.object.holds, e)
    go (cons at t z out out' r) e n =
        simp (Rules.not_null is.object, is.object.holds, e, Rules.not_null at, n)
