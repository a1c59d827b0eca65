-- ===== src/Downloads/Measure.antt =====
-- Every run of the threads comes to an end.
use native.Mathlib.Nat.{suc-mul}
use mathlib.Core.Path.{subst}
use cohere_technology_skillb.Prelude.{
  ℕ, ◌+◌, ◌-◌, ◌*◌, ◌≤◌, ◌<◌, ◌≡◌, refl, ap, true, false, List, [], ◌∷◌, ◌++◌, arith, length,
  get_elem?-lt, ◌⊎◌, inl, inr, Bool-cases,
}
use cohere_technology_skillb.Memory.{Ptr}
use cohere_technology_skillb.Downloads.{
  Shared, Pc, ready, checking, waiting, woken, popped, fetched, named, downloading, finished, Move,
  acquire, leave, wait, wake, take_path, release, read_counter, write_counter, download, Main,
  creating, preparing, holding, enqueued, signalled, joining, done, ended, Client, is_running, Step,
  create, begin, too_long, main_lock, main_enqueue, signal, signal_none, main_unlock, prepared,
  join, clean_up, work, open_fails, Reach, later, Run, stay, go,
}
use cohere_technology_skillb.Downloads.Counts.{total, total-append, FirstFinished-le}
use cohere_technology_skillb.Downloads.Progress.{Reach-Step}
use cohere_technology_skillb.Downloads.Invariant.{Inv}
use cohere_technology_skillb.Downloads.Preserve.{Reach-Inv}

-- The steps that a worker can still make; a signal gives one that waits two more.
abbrev cost : Pc → ℕ
cost (ready r) = 16 * r + 1
cost (checking r) = 16 * r + 14
cost (waiting r) = 16 * r + 13
cost (woken r) = 16 * r + 15
cost (popped r p) = 16 * r + 12
cost (fetched r p) = 16 * r + 11
cost (named r p c) = 16 * r + 10
cost (downloading r p c) = 16 * r + 9
cost finished = 0

abbrev main_cost : (num_requests num_threads : ℕ) → List Ptr → Main → ℕ
main_cost n t paths (creating left) = left * (16 * n + 2) + 8 * length paths + t + 4
main_cost n t paths (preparing rest) = 8 * length rest + t + 3
main_cost n t paths (holding p rest) = 8 * length rest + t + 10
main_cost n t paths (enqueued rest) = 8 * length rest + t + 9
main_cost n t paths (signalled rest) = 8 * length rest + t + 5
main_cost n t paths (joining next) = t + 2 - next
main_cost n t paths done = 0
main_cost n t paths (ended last) = 0

abbrev pub measure : (num_requests num_threads : ℕ) → List Ptr → Client → ℕ
measure n t paths s = total cost s.workers + main_cost n t paths s.main

Move-cost : {m m' : Shared} {p p' : Pc} → Move m p m' p' → cost p' < cost p
Move-cost (acquire free) = omega arith
Move-cost leave = omega arith
Move-cost (wait e) = omega arith
Move-cost (wake free) = omega arith
Move-cost (take_path e) = omega arith
Move-cost release = omega arith
Move-cost read_counter = omega arith
Move-cost write_counter = omega arith
Move-cost download = omega arith

running-cost :
    (n t : ℕ) (paths : List Ptr) (main : Main)
    → is_running main ≡ true
    → ((next : ℕ) → main ≡ joining next → next ≤ t)
    → 0 < main_cost n t paths main
running-cost n t paths (creating left) r le = omega arith
running-cost n t paths (preparing rest) r le = omega arith
running-cost n t paths (holding p rest) r le = omega arith
running-cost n t paths (enqueued rest) r le = omega arith
running-cost n t paths (signalled rest) r le = omega arith
running-cost n t paths (joining next) r le = omega (arith, le next refl)
running-cost n t paths done r le = absurd (cc (r))
running-cost n t paths (ended last) r le = absurd (cc (r))

move-cost :
    (xs ys : List Pc) (p p' : Pc)
    → cost p' < cost p
    → total cost (xs ++ (p' ∷ ys)) < total cost (xs ++ (p ∷ ys))
move-cost xs ys p p' lt =
    omega (arith, lt, total-append cost xs (p ∷ ys), total-append cost xs (p' ∷ ys))

module _ {n t : ℕ} {paths : List Ptr} where
  joined-le :
      {s : Client}
      → Inv n t paths s.shared s.workers s.main
      → (next : ℕ) → s.main ≡ joining next
      → next ≤ t
  joined-le {s} inv next e =
      let i : Inv n t paths s.shared s.workers (joining next) =
        subst (λ x. Inv n t paths s.shared s.workers x) e inv in
      omega (arith, FirstFinished-le next s.workers i.joined, i.created)

  Step-measure :
      {strlen : Ptr → ℕ} {s s' : Client}
      → Step strlen n paths s s'
      → Inv n t paths s.shared s.workers s.main
      → measure n t paths s' < measure n t paths s
  Step-measure {s} (create {left} e) inv = omega (
    arith,
    ap (main_cost n t paths) e,
    total-append cost s.workers (ready n ∷ []),
    suc-mul left (16 * n + 2),
  )
  Step-measure {s} (begin e) inv = omega (arith, ap (main_cost n t paths) e)
  Step-measure {s} (too_long {p} {rest} e l) inv = omega (arith, ap (main_cost n t paths) e)
  Step-measure {s} (main_lock {p} {rest} e l free) inv = omega (arith, ap (main_cost n t paths) e)
  Step-measure {s} (main_enqueue {p} {rest} e c) inv = omega (arith, ap (main_cost n t paths) e)
  Step-measure {s} (signal {rest} r xs ys e w) inv = omega (
    arith,
    ap (main_cost n t paths) e,
    ap (total cost) w,
    total-append cost xs (waiting r ∷ ys),
    total-append cost xs (woken r ∷ ys),
  )
  Step-measure {s} (signal_none {rest} e none_waits) inv = omega (arith, ap (main_cost n t paths) e)
  Step-measure {s} (main_unlock {rest} e) inv = omega (arith, ap (main_cost n t paths) e)
  Step-measure {s} (prepared e) inv = omega (arith, ap (main_cost n t paths) e)
  Step-measure {s} (join {next} e f) inv =
      let i : Inv n t paths s.shared s.workers (joining next) =
        subst (λ x. Inv n t paths s.shared s.workers x) e inv in
      omega (arith, ap (main_cost n t paths) e, get_elem?-lt s.workers next f, i.created)
  Step-measure {s} (clean_up {next} e l) inv =
      omega (arith, ap (main_cost n t paths) e, joined-le inv next e)
  Step-measure {s} (work {p} {p'} xs ys run w move) inv =
      omega (arith, ap (total cost) w, move-cost xs ys p p' (Move-cost move))
  Step-measure {s} (open_fails r c p xs ys run w) inv =
      omega (arith, running-cost n t paths s.main run (joined-le inv))

Run-Reach :
    {strlen : Ptr → ℕ} {n t : ℕ} {paths : List Ptr} {s : Client} {k : ℕ} {s' : Client}
    → Reach strlen n t paths s
    → Run strlen n paths s k s'
    → Reach strlen n t paths s' × (k + measure n t paths s' ≤ measure n t paths s)
Run-Reach r stay = (r, omega arith)
Run-Reach r (go run step) =
    let (r', le) = Run-Reach r run in
    (later r' step, omega (arith, le, Step-measure step (Reach-Inv r')))

-- From any state that the threads can reach, whatever the schedule, a run without spurious wake-ups
-- has at most the steps of the measure, and until the process has ended some thread can make the
-- next step: no deadlock, no lost wake-up and no endless run, where main prepares as many requests as
-- the threads take.
pub Run-measure :
    {strlen : Ptr → ℕ} {n t k : ℕ} {paths : List Ptr} {s s' : Client}
    → Reach strlen n t paths s
    → length paths ≡ n * t
    → Run strlen n paths s k s'
    → (k ≤ measure n t paths s)
      × ((is_running s'.main ≡ false) ⊎ ((s'' : Client) × Step strlen n paths s' s''))
Run-measure {s'} r enough run =
    let (r', le) = Run-Reach r run in
    (
      omega (arith, le),
      elim (Bool-cases (is_running s'.main)) [
        | inl t ↦ inr (Reach-Step r' enough t)
        | inr f ↦ inl f
      ],
    )
