-- ===== src/Qtest/Free.antt =====
-- free, when no other block is live.
use cohere_technology_skillb.Prelude.{
  ℕ, ◌+◌, ◌*◌, ◌<◌, ◌≡◌, refl, true, false, none, some, List, [], ◌∷◌, arith, length,
}
use cohere_technology_skillb.Memory.{Ptr, null}
use cohere_technology_skillb.Queue.{q_free}
use cohere_technology_skillb.Queue.Free.{q_free-all}
use cohere_technology_skillb.Queue.Segment.{Entries, ◌∈◌}
use cohere_technology_skillb.Qtest.{Tester, World, clear_error}
use cohere_technology_skillb.Qtest.Commands.{do_free, begin_free}
use cohere_technology_skillb.Qtest.State.{IsTester, guarded-Returns, show_queue-null}

-- The test program without a queue, all of whose blocks `xs` and the queue at `q` have been given back.
pub record Freed (t : Tester) (q : Ptr) (xs : Entries) : Type 0 where
  pub no_queue : t.q ≡ null
  pub none_counted : t.qcnt ≡ 0
  pub none_live : t.heap.live ≡ 0
  pub queue_gone : t.heap.cell q ≡ none
  pub entries_gone : (a : Ptr) → a ∈ xs → t.heap.cell a ≡ none
  pub cautious : t.cautious_mode ≡ true
  pub no_error : t.error_occurred ≡ false

-- If the queue's blocks are the only live ones, and the alarm gives q_free time for each element
-- and one more round, free returns true, and afterwards there is no queue, and no block is left.
pub do_free-Freed :
    {t : Tester} {xs : Entries} (w : World) (name : List ℕ)
    → IsTester t xs
    → t.heap.live ≡ 2 * length xs + 1
    → length xs < w.time
    → (t' : Tester) × ((do_free w (name ∷ []) t ≡ some (true, t')) × Freed t' t.q xs)
unfolding do_free
do_free-Freed {t} {xs} w name i live fuel =
    let (r, (g, (call, (gone, entries, same, left)))) =
      guarded-Returns w (q_free w.time t.q) (begin_free (clear_error t))
        (q_free-all w.time i.is fuel) in
    let empty : g.live ≡ 0 = omega (arith, left, live) in
    let t' : Tester = record (begin_free (clear_error t)) {
      heap = g;
      cautious_mode = true;
      q = null;
      qcnt = 0;
    } in
    (
      t',
      (
        rw (do_free, call, show_queue-null w 3 t' refl) (rw empty refl),
        record {
          no_queue = refl;
          none_counted = refl;
          none_live = empty;
          queue_gone = gone;
          entries_gone = entries;
          cautious = refl;
          no_error = refl;
        },
      ),
    )
