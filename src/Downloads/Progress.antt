-- ===== src/Downloads/Progress.antt =====
-- The threads never block one another for good.
use mathlib.Core.Path.{subst}
use cohere_technology_skillb.Prelude.{
  ℕ, zero, suc, ◌+◌, ◌*◌, ◌≤◌, ◌<◌, ◌≡◌, refl, ap, ◌∙◌, ◌⊎◌, inl, inr, true, false, some, List, [],
  ◌∷◌, ◌++◌, arith, length, length-append, get_elem?, leb, ltb, ltb→lt, Bool-cases,
}
use cohere_technology_skillb.Memory.{Ptr}
use cohere_technology_skillb.Downloads.{
  Shared, Pc, ready, checking, waiting, woken, popped, fetched, named, downloading, finished, Move,
  acquire, leave, wait, wake, take_path, release, read_counter, write_counter, download, Main,
  creating, preparing, holding, enqueued, signalled, joining, done, ended, Client, is_running,
  NoneWaits, Step, create, begin, too_long, main_lock, main_enqueue, signal, signal_none,
  main_unlock, prepared, join, clean_up, work, Reach,
}
use cohere_technology_skillb.Downloads.Counts.{
  total, total-le, holds, sleeps, arriving, owed, sleeps-le-owed, FirstFinished-le,
}
use cohere_technology_skillb.Downloads.Invariant.{main_holds, Inv}
use cohere_technology_skillb.Downloads.Preserve.{Reach-Inv}

-- A worker somewhere among the others.
record Somewhere (P : Pc → Type 0) (ws : List Pc) : Type 0 where
  xs : List Pc
  p : Pc
  ys : List Pc
  place : ws ≡ xs ++ (p ∷ ys)
  has : P p

module _ (P : Pc → Type 0) where
  here : {p : Pc} (ps : List Pc) → P p → Somewhere P (p ∷ ps)
  here {p} ps h = record { xs = []; p = p; ys = ps; place = refl; has = h }

  behind : {ps : List Pc} (q : Pc) → Somewhere P ps → Somewhere P (q ∷ ps)
  behind q s = record {
    xs = q ∷ s.xs;
    p = s.p;
    ys = s.ys;
    place = ap (λ l. q ∷ l) s.place;
    has = s.has;
  }

  -- Where each worker has P or none of what `f` counts, the sum shows whether there is one.
  search_for :
      (f : Pc → ℕ)
      → ((p : Pc) → P p ⊎ (f p ≡ 0))
      → (ws : List Pc) → Somewhere P ws ⊎ (total f ws ≡ 0)
  search_for f test [] = inr refl
  search_for f test (p ∷ ps) = elim (test p) [
    | inl h ↦ inl (here ps h)
    | inr z ↦ elim (search_for f test ps) [
      | inl s ↦ inl (behind p s)
      | inr zs ↦ inr (omega (arith, z, zs))
    ]
  ]

-- A worker with the shared part can move.
abbrev CanMove : Shared → Pc → Type 0
CanMove m p = (m' : Shared) × ((p' : Pc) × Move m p m' p')

-- One that holds the mutex can.
holder-CanMove : (m : Shared) (p : Pc) → CanMove m p ⊎ (holds p ≡ 0)
holder-CanMove m (ready r) = inr refl
holder-CanMove m (checking r) = inl (by m.queue refl)
  where
    by : (q : List Ptr) → m.queue ≡ q → CanMove m (checking r)
    by [] e = (_, (_, wait e))
    by (p ∷ q) e = (_, (_, take_path {p = p} {q = q} (rw e refl)))
holder-CanMove m (waiting r) = inr refl
holder-CanMove m (woken r) = inr refl
holder-CanMove m (popped r p) = inl (_, (_, release))
holder-CanMove m (fetched r p) = inr refl
holder-CanMove m (named r p c) = inr refl
holder-CanMove m (downloading r p c) = inr refl
holder-CanMove m finished = inr refl

-- While nobody holds the mutex, every worker can but those that wait and those that have finished.
abbrev idle : Pc → ℕ
idle (waiting r) = 0
idle finished = 0
idle _ = 1

free-CanMove : (m : Shared) → m.mutex ≡ false → (p : Pc) → CanMove m p ⊎ (idle p ≡ 0)
free-CanMove m free (ready zero) = inl (_, (_, leave))
free-CanMove m free (ready (suc r)) = inl (_, (_, acquire free))
free-CanMove m free (checking r) = elim (holder-CanMove m (checking r)) [
  | inl c ↦ inl c
  | inr z ↦ absurd (omega (arith, z))
]
free-CanMove m free (waiting r) = inr refl
free-CanMove m free (woken r) = inl (_, (_, wake free))
free-CanMove m free (popped r p) = inl (_, (_, release))
free-CanMove m free (fetched r p) = inl (_, (_, read_counter))
free-CanMove m free (named r p c) = inl (_, (_, write_counter))
free-CanMove m free (downloading r p c) = inl (_, (_, download))
free-CanMove m free finished = inr refl

arriving-le-idle : (p : Pc) → arriving p ≤ idle p
arriving-le-idle (ready r) = omega arith
arriving-le-idle (checking r) = omega arith
arriving-le-idle (waiting r) = omega arith
arriving-le-idle (woken r) = omega arith
arriving-le-idle (popped r p) = omega arith
arriving-le-idle (fetched r p) = omega arith
arriving-le-idle (named r p c) = omega arith
arriving-le-idle (downloading r p c) = omega arith
arriving-le-idle finished = omega arith

-- A waiting worker, if there is one.
abbrev Waits : Pc → Type 0
Waits p = (r : ℕ) × (p ≡ waiting r)

find_waiting : (ws : List Pc) → Somewhere Waits ws ⊎ NoneWaits ws
find_waiting [] = inr tt
find_waiting (waiting r ∷ ws) = inl (here Waits ws (r, refl))
find_waiting (p ∷ ws) = elim (find_waiting ws) [
  | inl s ↦ inl (behind Waits p s)
  | inr z ↦ inr (refl, z)
]

finished_at :
    (ws : List Pc) (i : ℕ)
    → total sleeps ws ≡ 0
    → total idle ws ≡ 0
    → i < length ws
    → get_elem? ws i ≡ some finished
finished_at [] i s z lt = absurd (omega arith)
finished_at (finished ∷ ws) zero s z lt = refl
finished_at (p ∷ ws) zero s z lt = absurd (omega (arith, s, z))
finished_at (p ∷ ws) (suc i) s z lt =
    finished_at ws i (omega (arith, s)) (omega (arith, z)) (omega (arith, lt))

module _ (strlen : Ptr → ℕ) (n t : ℕ) (paths : List Ptr) (s : Client)
    (inv : Inv n t paths s.shared s.workers s.main) where
  Next : Type 0
  Next = (s' : Client) × Step strlen n paths s s'

  move_on : is_running s.main ≡ true → Somewhere (CanMove s.shared) s.workers → Next
  unfolding Next
  move_on run w = (_, work w.xs w.ys run w.place w.has.1.1)

  -- Where main does not hold the mutex and it is not free, a worker holds it.
  holder_moves : is_running s.main ≡ true → main_holds s.main ≡ 0 → s.shared.mutex ≡ true → Next
  holder_moves run z busy =
      elim (search_for (CanMove s.shared) holds (holder-CanMove s.shared) s.workers) [
        | inl w ↦ move_on run w
        | inr nobody ↦ absurd (ground (arith, inv.exclusive, z, busy, nobody))
      ]

  -- In the order of their creation the threads finish, or somebody is left to move.
  join_moves :
      (next : ℕ)
      → s.main ≡ joining next
      → length paths ≡ n * t
      → s.shared.mutex ≡ false
      → next < length s.workers
      → Next
  unfolding Next
  join_moves next e enough free lt =
      elim (search_for (CanMove s.shared) idle (free-CanMove s.shared free) s.workers) [
        | inl w ↦ move_on (rw e refl) w
        | inr quiet ↦
            let i : Inv n t paths s.shared s.workers (joining next) =
              subst (λ x. Inv n t paths s.shared s.workers x) e inv in
            let none_arrives : total arriving s.workers ≡ 0 =
              omega (arith, quiet, total-le arriving idle arriving-le-idle s.workers) in
            let all : length s.shared.taken + length s.shared.queue ≡ length paths = omega (
              arith,
              ap length i.order,
              length-append s.shared.taken (s.shared.queue ++ []),
              length-append s.shared.queue [],
            ) in
            let owed_all : total owed s.workers ≡ length s.shared.queue =
              omega (arith, i.rounds, enough, all) in
            let asleep : total sleeps s.workers ≡ 0 =
              elim (Bool-cases (ltb 0 (total sleeps s.workers))) [
                | inr f ↦ ground (arith, f)
                | inl h ↦ absurd (
                    omega (
                      arith,
                      i.wakeups (ground (arith, h)),
                      none_arrives,
                      owed_all,
                      total-le sleeps owed sleeps-le-owed s.workers,
                      ltb→lt 0 (total sleeps s.workers) h,
                    ))
              ] in
            (_, join e (finished_at s.workers next asleep quiet lt))
      ]

  progress : length paths ≡ n * t → is_running s.main ≡ true → Next
  unfolding Next
  progress enough run = by s.main refl
    where
      by : (main : Main) → s.main ≡ main → Next
      by (creating zero) e = (_, begin e)
      by (creating (suc left)) e = (_, create e)
      by (preparing []) e = (_, prepared e)
      by (preparing (p ∷ rest)) e = elim (Bool-cases (leb (strlen p) 256)) [
        | inr long ↦ (_, too_long e (ground (arith, long)))
        | inl fits ↦ elim (Bool-cases s.shared.mutex) [
          | inl busy ↦ holder_moves run (rw e refl) busy
          | inr free ↦ (_, main_lock e (ground (arith, fits)) free)
        ]
      ]
      by (holding p rest) e = (_, main_enqueue e refl)
      by (enqueued rest) e = elim (find_waiting s.workers) [
        | inl w ↦ (_, signal w.has.0 w.xs w.ys e (w.place ∙ ap (λ q. w.xs ++ (q ∷ w.ys)) w.has.1))
        | inr z ↦ (_, signal_none e z)
      ]
      by (signalled rest) e = (_, main_unlock e)
      by (joining next) e = elim (Bool-cases (ltb next (length s.workers))) [
        | inr all ↦
            let i : Inv n t paths s.shared s.workers (joining next) =
              subst (λ x. Inv n t paths s.shared s.workers x) e inv in
            (_, clean_up e (ground (arith, all, FirstFinished-le next s.workers i.joined)))
        | inl more ↦ elim (Bool-cases s.shared.mutex) [
          | inl busy ↦ holder_moves run (rw e refl) busy
          | inr free ↦ join_moves next e enough free (ground (arith, more))
        ]
      ]
      by done e = absurd (cc (e, run))
      by (ended last) e = absurd (cc (e, run))

-- No deadlock and no lost wake-up: until the process ends, some thread can make a step, where main
-- prepares as many requests as the threads take.
pub Reach-Step :
    {strlen : Ptr → ℕ} {n t : ℕ} {paths : List Ptr} {s : Client}
    → Reach strlen n t paths s
    → length paths ≡ n * t
    → is_running s.main ≡ true
    → (s' : Client) × Step strlen n paths s s'
unfolding Next
Reach-Step {strlen} {n} {t} {paths} {s} r enough run =
    progress strlen n t paths s (Reach-Inv r) enough run
