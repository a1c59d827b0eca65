-- ===== src/Qtest/Insert.antt =====
-- ih and it with one string, when both calls of malloc succeed.
use cohere_technology_skillb.Prelude.{
  ℕ, ◌+◌, ◌^◌, ◌<◌, ◌≡◌, ◌≢◌, refl, sym, ap, ◌∙◌, Bool, true, false, some, List, [], ◌∷◌, ◌++◌,
  arith, ◌==◌, length,
}
use mathlib.Core.Path.{subst}
use cohere_technology_skillb.Memory.{Ptr, null, ok, Cmd}
use cohere_technology_skillb.Memory.Rules
use cohere_technology_skillb.Memory.Rules.{Returns, returns, Points}
use cohere_technology_skillb.Queue.Strings.{NoNul}
use cohere_technology_skillb.Queue.Insert.Blocks.{TwoBlocks}
use cohere_technology_skillb.Queue.Insert.Head.{q_insert_head-cons}
use cohere_technology_skillb.Queue.Insert.Tail.{q_insert_tail-snoc}
use cohere_technology_skillb.Queue.{
  Cell, QueueHeap, Queue, ele, ele_of, q_insert_head, q_insert_tail,
}
use cohere_technology_skillb.Queue.Segment.{Entry, entry, Entries, IsQueue, Seg, cons}
use cohere_technology_skillb.Qtest.{Tester, World, guarded, clear_error}
use cohere_technology_skillb.Qtest.Commands.{
  do_insert_head, do_insert_tail, head_loop, tail_loop, insert_once, first_value, count_up,
}
use cohere_technology_skillb.Qtest.State.{IsTester, guarded-Returns, clear-IsTester, shown-IsTester}

-- The first element of a chain.
first-ele :
    {g : QueueHeap} {p : Ptr} {e : Entry} {xs : Entries}
    → Seg g null p (e ∷ xs)
    → (n : Ptr) × (Points g p (ele (ele_of e.str n)) × (e.str ≢ null))
first-ele (cons {n} f v z out out' rest) = (n, (f, v.ne_null))

-- After the insertion the value of the first element can be read.
first_value-IsQueue :
    {g : QueueHeap} {q : Ptr} {s : Queue} {e : Entry} {xs : Entries}
    → IsQueue g q s (e ∷ xs)
    → (first_value q g ≡ ok e.str g) × (e.str ≢ null)
first_value-IsQueue is =
    let (n, (f, ne)) = first-ele is.chain in
    (rw (first_value, Rules.load-ok is.object, Rules.load-ok f) refl, ne)

-- An insertion that leaves `xs` in the queue, from any of the two functions.
insert_once-IsQueue :
    {h : QueueHeap} {q : Ptr} {e : Entry} {xs : Entries} (insert : Ptr → List ℕ → Cmd Cell Bool)
    (bytes : List ℕ)
    → Returns (λ r g. (r ≡ true) × ((s' : Queue) × IsQueue g q s' (e ∷ xs))) (insert q bytes h)
    → Returns
        (λ r g. (r ≡ (true, e.str)) × ((s' : Queue) × IsQueue g q s' (e ∷ xs)) × (e.str ≢ null))
        (insert_once insert q bytes h)
insert_once-IsQueue {q} {e} insert bytes r = Rules.bind r λ done g (is_true, (s', is)).
    let (value, ne) = first_value-IsQueue is in rw (is_true, value) (returns (refl, (s', is), ne))

-- The same for an insertion at the tail.
tail_once :
    {q : Ptr} (h : QueueHeap) (e : Entry) (xs : Entries) (bytes : List ℕ)
    → Returns
        (λ r g. (r ≡ true) × ((s' : Queue) × IsQueue g q s' (xs ++ (e ∷ []))))
        (q_insert_tail q bytes h)
    → Returns
        (λ r g. (r.0 ≡ true) × ((s' : Queue) × IsQueue g q s' (xs ++ (e ∷ []))) × (r.1 ≢ null))
        (insert_once q_insert_tail q bytes h)
tail_once h e [] bytes r =
    Rules.mono (insert_once-IsQueue q_insert_tail bytes r)
      λ r g (good, is, ne). (ap (λ p. p.0) good, is, subst (λ p. p.1 ≢ null) (sym good) ne)
tail_once h e (x ∷ xs) bytes r =
    Rules.mono (insert_once-IsQueue q_insert_tail bytes r)
      λ r g (good, is, ne). (ap (λ p. p.0) good, is, subst (λ p. p.1 ≢ null) (sym good) ne)

-- The test program behind a successful insertion.
inserted-IsTester :
    {t : Tester} {xs ys : Entries} {g : QueueHeap} {s' : Queue}
    → IsTester t xs
    → IsQueue g t.q s' ys
    → length ys ≡ length xs + 1
    → length xs + 1 < 2 ^ 31
    → IsTester (count_up (record t { heap = g })) ys
inserted-IsTester {t} i is longer small = record {
  s = _;
  is = is;
  counted = omega (arith, i.counted, longer, small);
  few = omega (arith, longer, small);
  no_error = i.no_error;
}

length-snoc : (xs : Entries) (e : Entry) → length (xs ++ (e ∷ [])) ≡ length xs + 1
length-snoc [] e = refl
length-snoc (x ∷ xs) e = omega (arith, length-snoc xs e)

module _ {t : Tester} {xs : Entries} {n v : Ptr} {rest : List Ptr} (w : World) (name bytes : List ℕ)
    (i : IsTester t xs) (two : TwoBlocks t.heap n v rest) (z : NoNul bytes)
    (small : length xs + 1 < 2 ^ 31) where
  -- ih with one string, for which both calls of malloc succeed, returns true, and the queue of the
  -- test program is then the new string in front of the old ones, with qcnt as its length.
  pub do_insert_head-cons :
      (t' : Tester) × ((do_insert_head w (name ∷ bytes ∷ []) t ≡ some (true, t'))
        × IsTester t' (entry n v bytes ∷ xs))
  unfolding do_insert_head head_loop
  do_insert_head-cons =
      let i0 = clear-IsTester i in
      let once = insert_once-IsQueue q_insert_head bytes (
        Rules.mono (q_insert_head-cons bytes i.is two z small)
          λ r g (done, is, same). (done, is)) in
      let (r, (g, (e, (good, (s', is), ne)))) =
        guarded-Returns w (insert_once q_insert_head t.q bytes) (clear_error t) once in
      let call : guarded w (insert_once q_insert_head t.q bytes) (clear_error t)
          ≡ (some (true, v), record (clear_error t) { heap = g }) =
        rw (good) at e in
      let i' = inserted-IsTester i0 is (omega arith) small in
      let filled : (v == null) ≡ false = ground (arith, ne) in
      (_, (rw (do_insert_head, head_loop, call, filled) (shown-IsTester w true i'), i'))

  -- it with one string, for which both calls of malloc succeed, returns true, and the queue of the
  -- test program is then the new string behind the old ones, with qcnt as its length.
  pub do_insert_tail-snoc :
      (t' : Tester) × ((do_insert_tail w (name ∷ bytes ∷ []) t ≡ some (true, t'))
        × IsTester t' (xs ++ (entry n v bytes ∷ [])))
  unfolding do_insert_tail tail_loop
  do_insert_tail-snoc =
      let i0 = clear-IsTester i in
      let once = tail_once _ _ xs bytes (
        Rules.mono (q_insert_tail-snoc xs bytes i.is two z small)
          λ r g (done, is, same). (done, is)) in
      let (r, (g, (e, (good, (s', is), ne)))) =
        guarded-Returns w (insert_once q_insert_tail t.q bytes) (clear_error t) once in
      let call : guarded w (insert_once q_insert_tail t.q bytes) (clear_error t)
          ≡ (some (true, r.1), record (clear_error t) { heap = g }) =
        e ∙ ap (λ b. (some (b, r.1), record (clear_error t) { heap = g })) good in
      let i' = inserted-IsTester i0 is (length-snoc xs (entry n v bytes)) small in
      let filled : (r.1 == null) ≡ false = ground (arith, ne) in
      (_, (rw (do_insert_tail, tail_loop, call, filled) (shown-IsTester w true i'), i'))
