-- ===== src/Qtest/State.antt =====
-- The states of the test program in which its queue is well formed and its count is right.
use cohere_technology_skillb.Prelude.{
  ℕ, ◌+◌, ◌^◌, ◌<◌, ◌≡◌, refl, sym, ap, Bool, true, false, some, List, arith, ◌==◌, Bool-cases, inl,
  inr, length,
}
use mathlib.Core.Path.{subst}
use cohere_technology_skillb.Memory.{Ptr, null, Run, ok, Cmd}
use cohere_technology_skillb.Memory.Rules
use cohere_technology_skillb.Memory.Rules.{Returns, returns, Points}
use cohere_technology_skillb.Queue.{Cell, QueueHeap, Queue, ele, ele_of, text}
use cohere_technology_skillb.Queue.Segment.{Entries, Seg, nil, cons, IsQueue}
use cohere_technology_skillb.Qtest.{
  Tester, World, guarded, show_element, show_loop, show_queue, int_lt, clear_error,
}
use cohere_technology_skillb.Qtest.Commands.{failed, shown, shown_checked}

-- The queue holds `xs`, qcnt is their number, and no error is pending.
pub record IsTester (t : Tester) (xs : Entries) : Type 0 where
  pub s : Queue
  pub is : IsQueue t.heap t.q s xs
  pub counted : t.qcnt ≡ length xs
  pub few : length xs < 2 ^ 31
  pub no_error : t.error_occurred ≡ false

-- A call that returns is not interrupted.
pub guarded-Returns :
    {A : Type 0} {P : A → QueueHeap → Type 0} (w : World) (m : Cmd Cell A) (t : Tester)
    → Returns P (m t.heap)
    → (a : A) × ((h : QueueHeap) × ((guarded w m t ≡ (some a, record t { heap = h })) × P a h))
unfolding guarded
guarded-Returns {A} {P} w m t r = by (m t.heap) refl r
  where
    by :
        (run : Run Cell A)
        → m t.heap ≡ run
        → Returns P run
        → (a : A) × ((h : QueueHeap) × ((guarded w m t ≡ (some a, record t { heap = h })) × P a h))
    by run e (returns {a} {h} p) = (a, (h, (rw (e, guarded) refl, p)))

-- A call whose run is known.
pub guarded-ok :
    {A : Type 0} (w : World) (m : Cmd Cell A) (t : Tester) (a : A)
    → m t.heap ≡ ok a t.heap
    → guarded w m t ≡ (some a, t)
unfolding guarded
guarded-ok w m t a e = rw (guarded, e) refl

pub clear-same : (t : Tester) → t.error_occurred ≡ false → clear_error t ≡ t
clear-same t e = λ i. record t { error_occurred = sym e i }

-- One element of a chain can be read.
show_element-Points :
    {p v n : Ptr} {s : List ℕ} (w : World) (printed : Bool) (t : Tester)
    → Points t.heap p (ele (ele_of v n))
    → Points t.heap v (text s)
    → guarded w (show_element printed p) t ≡ (some n, t)
unfolding guarded
show_element-Points w true t f g =
    rw (guarded, Rules.load-ok f) (rw (guarded, Rules.load-ok g) refl)
show_element-Points w false t f g = rw (guarded, Rules.load-ok f) refl

-- show_loop over a chain reads it to its end and changes nothing.
show_loop-Seg :
    (w : World) (t : Tester) {p : Ptr} {xs : Entries} (cnt : ℕ)
    → Seg t.heap null p xs
    → t.error_occurred ≡ false
    → show_loop w (length xs) cnt p t ≡ ((true, true), t)
unfolding show_loop
show_loop-Seg w t cnt nil e = refl
show_loop-Seg w t cnt (cons {p} {n} {xs} f g z out out' s) e =
    let one = show_element-Points w (int_lt cnt t.big_queue_size) t f g in
    rw (show_loop, Rules.not_null f, one) (simp e (show_loop-Seg w t (cnt + 1) s e))

-- show_queue finds the whole queue, and changes nothing.
pub show_queue-IsTester :
    {t : Tester} {xs : Entries} (w : World) (vlevel : ℕ)
    → IsTester t xs
    → show_queue w vlevel t ≡ some (true, t)
unfolding show_queue
show_queue-IsTester {t} {xs} w vlevel i = elim (Bool-cases (int_lt t.verblevel vlevel)) [
  | inl quiet ↦ rw quiet refl
  | inr loud ↦
      let whole : show_loop w t.qcnt 0 i.s.head t ≡ ((true, true), t) =
        subst (λ k. show_loop w k 0 i.s.head t ≡ ((true, true), t)) (sym i.counted)
          (show_loop-Seg w t 0 i.is.chain i.no_error) in
      rw (loud, Rules.not_null i.is.object, Rules.load-ok i.is.object, whole) refl
]

-- Without a queue it only says so.
pub show_queue-null :
    (w : World) (vlevel : ℕ) (t : Tester) → t.q ≡ null → show_queue w vlevel t ≡ some (true, t)
unfolding show_queue
show_queue-null w vlevel t e = elim (Bool-cases (int_lt t.verblevel vlevel)) [
  | inl quiet ↦ rw quiet refl
  | inr loud ↦ let z : (t.q == null) ≡ true = ground (arith, e) in rw (loud, z) refl
]

pub failed-IsTester : {t : Tester} {xs : Entries} → IsTester t xs → IsTester (failed t) xs
failed-IsTester i = record {
  s = i.s;
  is = i.is;
  counted = i.counted;
  few = i.few;
  no_error = i.no_error;
}

pub clear-IsTester : {t : Tester} {xs : Entries} → IsTester t xs → IsTester (clear_error t) xs
clear-IsTester i = record { s = i.s; is = i.is; counted = i.counted; few = i.few; no_error = refl }

-- The end of a command on a well-formed queue.
pub shown_checked-IsTester :
    {t : Tester} {xs : Entries} (w : World) (good : Bool)
    → IsTester t xs
    → shown_checked w good t ≡ some (good, t)
shown_checked-IsTester {t} w true i =
    rw (shown_checked, show_queue-IsTester w 3 i)
      (simp i.no_error (ap (λ u. some (true, u)) (clear-same t i.no_error)))
shown_checked-IsTester {t} w false i = rw (shown_checked, show_queue-IsTester w 3 i) refl

pub shown-IsTester :
    {t : Tester} {xs : Entries} (w : World) (good : Bool)
    → IsTester t xs
    → shown w good t ≡ some (good, t)
shown-IsTester {t} w good i = rw (shown, show_queue-IsTester w 3 i) refl
