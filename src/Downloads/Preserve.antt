-- ===== src/Downloads/Preserve.antt =====
-- Every step keeps the invariant.
use native.Mathlib.Nat.{mul-suc}
use mathlib.Core.Path.{subst}
use mathlib.Core.List.{append_assoc}
use cohere_technology_skillb.Prelude.{
  ℕ, zero, suc, ◌+◌, ◌≤◌, ◌<◌, ◌≡◌, refl, ap, ◌∙◌, true, false, some, List, [], ◌∷◌, ◌++◌, arith,
  length, length-append, get_elem?, if◌then◌else◌,
}
use cohere_technology_skillb.Memory.{Ptr}
use cohere_technology_skillb.Steque.Deque.{enqueue, pop, call}
use cohere_technology_skillb.Downloads.{
  Shared, Pc, ready, waiting, woken, finished, Move, acquire, leave, wait, wake, take_path, release,
  read_counter, write_counter, download, Main, creating, preparing, holding, enqueued, signalled,
  joining, done, ended, Client, requests_of, NoneWaits, Step, create, begin, too_long, main_lock,
  main_enqueue, signal, signal_none, main_unlock, prepared, join, clean_up, work, open_fails,
  Spurious, spurious, Reach, start, later, unprompted,
}
use cohere_technology_skillb.Downloads.Counts.{
  total, total-append, holds, sleeps, arriving, owed, is_finished, FirstFinished, AllFinished,
  FirstFinished-change,
}
use cohere_technology_skillb.Downloads.Invariant.{
  main_holds, unsignalled, uncreated, Joined, Inv, initial-Inv,
}

pub pop-eq : (l q : List Ptr) (p : Ptr) → call pop l ≡ some (q, p ∷ []) → l ≡ p ∷ q
pop-eq [] q p e = absurd (cc (e))
pop-eq (x ∷ l) q p e = cc (e)

-- What a step of a worker changes, whatever the other threads are doing.
record Effect (m : Shared) (p : Pc) (m' : Shared) (p' : Pc) : Type 0 where
  before : is_finished p ≡ false
  mutex : holds p' + (if m.mutex then 1 else 0) ≡ holds p + (if m'.mutex then 1 else 0)
  order : (rest : List Ptr) → m'.taken ++ (m'.queue ++ rest) ≡ m.taken ++ (m.queue ++ rest)
  rounds : owed p' + length m'.taken ≡ owed p + length m.taken
  wakeups :
      (s a : ℕ)
      → (0 < sleeps p + s → length m.queue ≤ arriving p + a)
      → 0 < sleeps p' + s
      → length m'.queue ≤ arriving p' + a

Move-Effect :
    {m m' : Shared} {p p' : Pc}
    → Move m p m' p'
    → holds p ≤ (if m.mutex then 1 else 0)
    → Effect m p m' p'
Move-Effect (acquire free) h = record {
  before = refl;
  mutex = ground (arith, free);
  order = λ rest. refl;
  rounds = omega arith;
  wakeups = λ s a w o. omega (arith, w, o);
}
Move-Effect leave h = record {
  before = refl;
  mutex = refl;
  order = λ rest. refl;
  rounds = omega arith;
  wakeups = λ s a w o. omega (arith, w, o);
}
Move-Effect (wait e) h = record {
  before = refl;
  mutex = ground arith;
  order = λ rest. refl;
  rounds = omega arith;
  wakeups = λ s a w o. rw e (omega arith);
}
Move-Effect (wake free) h = record {
  before = refl;
  mutex = ground (arith, free);
  order = λ rest. refl;
  rounds = omega arith;
  wakeups = λ s a w o. omega (arith, w, o);
}
Move-Effect {m} (take_path {r} {p} {q} e) h =
    let l = pop-eq m.queue q p e in
    record {
      before = refl;
      mutex = ground arith;
      order = λ rest. rw l (simp append_assoc);
      rounds = omega (arith, length-append m.taken (p ∷ []));
      wakeups = λ s a w o. omega (arith, w, o, ap length l);
    }
Move-Effect release h = record {
  before = refl;
  mutex = ground arith;
  order = λ rest. refl;
  rounds = omega arith;
  wakeups = λ s a w o. omega (arith, w, o);
}
Move-Effect read_counter h = record {
  before = refl;
  mutex = refl;
  order = λ rest. refl;
  rounds = omega arith;
  wakeups = λ s a w o. omega (arith, w, o);
}
Move-Effect write_counter h = record {
  before = refl;
  mutex = refl;
  order = λ rest. refl;
  rounds = omega arith;
  wakeups = λ s a w o. omega (arith, w, o);
}
Move-Effect download h = record {
  before = refl;
  mutex = refl;
  order = λ rest. refl;
  rounds = omega arith;
  wakeups = λ s a w o. omega (arith, w, o);
}

AllFinished-change :
    (xs ys : List Pc) (p p' : Pc)
    → is_finished p ≡ false
    → AllFinished (xs ++ (p ∷ ys))
    → AllFinished (xs ++ (p' ∷ ys))
AllFinished-change [] ys p p' u f = absurd (cc (f.0, u))
AllFinished-change (x ∷ xs) ys p p' u f = (f.0, AllFinished-change xs ys p p' u f.1)

Joined-change :
    (main : Main) (xs ys : List Pc) (p p' : Pc)
    → is_finished p ≡ false
    → Joined (xs ++ (p ∷ ys)) main
    → Joined (xs ++ (p' ∷ ys)) main
Joined-change (creating left) xs ys p p' u j = tt
Joined-change (preparing rest) xs ys p p' u j = tt
Joined-change (holding q rest) xs ys p p' u j = tt
Joined-change (enqueued rest) xs ys p p' u j = tt
Joined-change (signalled rest) xs ys p p' u j = tt
Joined-change (joining next) xs ys p p' u j = FirstFinished-change next xs ys p p' u j
Joined-change done xs ys p p' u j = AllFinished-change xs ys p p' u j
Joined-change (ended last) xs ys p p' u j = Joined-change last xs ys p p' u j

module _ {n t : ℕ} {paths : List Ptr} where
  -- One of the workers moves.
  change :
      {m m' : Shared} {main : Main} {p p' : Pc} (xs ys : List Pc)
      → Inv n t paths m (xs ++ (p ∷ ys)) main
      → Effect m p m' p'
      → Inv n t paths m' (xs ++ (p' ∷ ys)) main
  change {m} {m'} {main} {p} {p'} xs ys inv e =
      let sum = λ (f : Pc → ℕ). total-append f xs (p ∷ ys) in
      let sum' = λ (f : Pc → ℕ). total-append f xs (p' ∷ ys) in
      let s = total sleeps xs + total sleeps ys in
      let a = total arriving xs + total arriving ys + unsignalled main in
      record {
        exclusive = ground (arith, inv.exclusive, e.mutex, sum holds, sum' holds);
        order = e.order (requests_of paths main) ∙ inv.order;
        created = omega (arith, inv.created, length-append xs (p ∷ ys), length-append xs (p' ∷ ys));
        rounds = omega (arith, inv.rounds, e.rounds, sum owed, sum' owed);
        wakeups = λ o.
            let old : 0 < sleeps p + s → length m.queue ≤ arriving p + a =
              λ h. omega (arith, inv.wakeups (omega (arith, h, sum sleeps)), sum arriving) in
            let new = e.wakeups s a old (omega (arith, o, sum' sleeps)) in
            omega (arith, new, sum' arriving);
        joined = Joined-change main xs ys p p' e.before inv.joined;
      }

  Move-Inv :
      {m m' : Shared} {main : Main} {p p' : Pc} (xs ys : List Pc)
      → Inv n t paths m (xs ++ (p ∷ ys)) main
      → Move m p m' p'
      → Inv n t paths m' (xs ++ (p' ∷ ys)) main
  Move-Inv {m} {p} xs ys inv move =
      change xs ys inv
        (Move-Effect move (omega (arith, inv.exclusive, total-append holds xs (p ∷ ys))))

  -- A waiting worker wakes up, with the signal of main or with none.
  woken-Inv :
      {m : Shared} {main : Main} (r : ℕ) (xs ys : List Pc)
      → Inv n t paths m (xs ++ (waiting r ∷ ys)) main
      → Inv n t paths m (xs ++ (woken r ∷ ys)) main
  woken-Inv r xs ys inv = change xs ys inv (record {
    before = refl;
    mutex = refl;
    order = λ rest. refl;
    rounds = refl;
    wakeups = λ s a w o. omega (arith, w, o);
  })

  signal-Inv :
      {m : Shared} {rest : List Ptr} (r : ℕ) (xs ys : List Pc)
      → Inv n t paths m (xs ++ (waiting r ∷ ys)) (enqueued rest)
      → Inv n t paths m (xs ++ (woken r ∷ ys)) (signalled rest)
  signal-Inv {m} r xs ys inv =
      let w = woken-Inv r xs ys inv in
      record {
        exclusive = w.exclusive;
        order = w.order;
        created = w.created;
        rounds = w.rounds;
        wakeups = λ o.
            let had = inv.wakeups (omega (arith, total-append sleeps xs (waiting r ∷ ys))) in
            omega (
              arith,
              had,
              total-append arriving xs (waiting r ∷ ys),
              total-append arriving xs (woken r ∷ ys),
            );
        joined = tt;
      }

NoneWaits-total : (ws : List Pc) → NoneWaits ws → total sleeps ws ≡ 0
NoneWaits-total [] none_waits = refl
NoneWaits-total (p ∷ ws) none_waits =
    rw (none_waits.0) (omega (arith, NoneWaits-total ws none_waits.1))

-- The next thread to join has finished.
FirstFinished-next :
    (n : ℕ) (ws : List Pc)
    → FirstFinished n ws
    → get_elem? ws n ≡ some finished
    → FirstFinished (suc n) ws
FirstFinished-next zero [] f e = absurd (cc (e))
FirstFinished-next zero (p ∷ ws) f e = let q : p ≡ finished = cc (e) in (rw q refl, tt)
FirstFinished-next (suc n) [] f e = absurd (cc (e))
FirstFinished-next (suc n) (p ∷ ws) f e = (f.0, FirstFinished-next n ws f.1 e)

FirstFinished-all : (ws : List Pc) → FirstFinished (length ws) ws → AllFinished ws
FirstFinished-all [] f = tt
FirstFinished-all (p ∷ ws) f = (f.0, FirstFinished-all ws f.1)

module _ {n t : ℕ} {paths : List Ptr} where
  -- What main is doing, put into the invariant.
  at_main :
      {m : Shared} {ws : List Pc} {main main' : Main}
      → main ≡ main'
      → Inv n t paths m ws main
      → Inv n t paths m ws main'
  at_main {m} {ws} e inv = subst (λ x. Inv n t paths m ws x) e inv

  at_workers :
      {m : Shared} {ws ws' : List Pc} {main : Main}
      → ws ≡ ws'
      → Inv n t paths m ws main
      → Inv n t paths m ws' main
  at_workers {m} {main} e inv = subst (λ x. Inv n t paths m x main) e inv

  create-Inv :
      {m : Shared} {ws : List Pc} {left : ℕ}
      → Inv n t paths m ws (creating (suc left))
      → Inv n t paths m (ws ++ (ready n ∷ [])) (creating left)
  create-Inv {ws} {left} inv = record {
    exclusive = ground (arith, inv.exclusive, total-append holds ws (ready n ∷ []));
    order = inv.order;
    created = omega (arith, inv.created, length-append ws (ready n ∷ []));
    rounds = omega (arith, inv.rounds, total-append owed ws (ready n ∷ []), mul-suc n left);
    wakeups = λ o. omega (
      arith,
      inv.wakeups (omega (arith, o, total-append sleeps ws (ready n ∷ []))),
      total-append arriving ws (ready n ∷ []),
    );
    joined = tt;
  }

  main_lock-Inv :
      {m : Shared} {ws : List Pc} {p : Ptr} {rest : List Ptr}
      → m.mutex ≡ false
      → Inv n t paths m ws (preparing (p ∷ rest))
      → Inv n t paths (record m { mutex = true }) ws (holding p rest)
  main_lock-Inv free inv = record {
    exclusive = ground (arith, inv.exclusive);
    order = inv.order;
    created = inv.created;
    rounds = inv.rounds;
    wakeups = inv.wakeups;
    joined = tt;
  }

  main_enqueue-Inv :
      {m : Shared} {ws : List Pc} {p : Ptr} {rest q : List Ptr}
      → call (enqueue p) m.queue ≡ some (q, [])
      → Inv n t paths m ws (holding p rest)
      → Inv n t paths (record m { queue = q }) ws (enqueued rest)
  main_enqueue-Inv {m} {ws} {p} {rest} {q} e inv =
      let l : q ≡ m.queue ++ (p ∷ []) = cc (e) in
      record {
        exclusive = inv.exclusive;
        order = rw l (simp append_assoc inv.order);
        created = inv.created;
        rounds = inv.rounds;
        wakeups = λ o. omega (arith, inv.wakeups o, ap length l, length-append m.queue (p ∷ []));
        joined = tt;
      }

  signal_none-Inv :
      {m : Shared} {ws : List Pc} {rest : List Ptr}
      → NoneWaits ws
      → Inv n t paths m ws (enqueued rest)
      → Inv n t paths m ws (signalled rest)
  signal_none-Inv {ws} none_waits inv = record {
    exclusive = inv.exclusive;
    order = inv.order;
    created = inv.created;
    rounds = inv.rounds;
    wakeups = λ o. absurd (omega (arith, o, NoneWaits-total ws none_waits));
    joined = tt;
  }

  main_unlock-Inv :
      {m : Shared} {ws : List Pc} {rest : List Ptr}
      → Inv n t paths m ws (signalled rest)
      → Inv n t paths (record m { mutex = false }) ws (preparing rest)
  main_unlock-Inv {ws} inv = record {
    exclusive = ground (arith, inv.exclusive);
    order = inv.order;
    created = inv.created;
    rounds = inv.rounds;
    wakeups = inv.wakeups;
    joined = tt;
  }

  -- A step that only changes what main is doing.
  move_on-Inv :
      {m : Shared} {ws : List Pc} (main main' : Main)
      → main_holds main' ≡ main_holds main
      → requests_of paths main' ≡ requests_of paths main
      → uncreated main' ≡ uncreated main
      → unsignalled main' ≡ unsignalled main
      → Joined ws main'
      → Inv n t paths m ws main
      → Inv n t paths m ws main'
  move_on-Inv {m} {ws} main main' h r u w j inv = record {
    exclusive = omega (arith, inv.exclusive, h);
    order = rw r inv.order;
    created = omega (arith, inv.created, u);
    rounds = rw u inv.rounds;
    wakeups = λ o. omega (arith, inv.wakeups o, w);
    joined = j;
  }

  pub Step-Inv :
      {strlen : Ptr → ℕ} {s s' : Client}
      → Step strlen n paths s s'
      → Inv n t paths s.shared s.workers s.main
      → Inv n t paths s'.shared s'.workers s'.main
  Step-Inv (create e) inv = create-Inv (at_main e inv)
  Step-Inv (begin e) inv =
      move_on-Inv (creating zero) (preparing paths) refl refl refl refl tt (at_main e inv)
  Step-Inv {s} (too_long e l) inv =
      move_on-Inv s.main (ended s.main) refl refl refl refl inv.joined inv
  Step-Inv (main_lock e l free) inv = main_lock-Inv free (at_main e inv)
  Step-Inv (main_enqueue e c) inv = main_enqueue-Inv c (at_main e inv)
  Step-Inv (signal r xs ys e w) inv = signal-Inv r xs ys (at_workers w (at_main e inv))
  Step-Inv (signal_none e none_waits) inv = signal_none-Inv none_waits (at_main e inv)
  Step-Inv (main_unlock e) inv = main_unlock-Inv (at_main e inv)
  Step-Inv (prepared e) inv =
      move_on-Inv (preparing []) (joining 0) refl refl refl refl tt (at_main e inv)
  Step-Inv {s} (join {next} e f) inv =
      let i = at_main e inv in
      move_on-Inv (joining next) (joining (suc next)) refl refl refl refl
        (FirstFinished-next next s.workers i.joined f) i
  Step-Inv {s} (clean_up {next} e l) inv =
      let i = at_main e inv in
      move_on-Inv (joining next) done refl refl refl refl
        (FirstFinished-all s.workers (subst (λ k. FirstFinished k s.workers) l i.joined)) i
  Step-Inv (work xs ys run w move) inv = Move-Inv xs ys (at_workers w inv) move
  Step-Inv {s} (open_fails r c p xs ys run w) inv =
      move_on-Inv s.main (ended s.main) refl refl refl refl inv.joined inv

  pub Spurious-Inv :
      {s s' : Client}
      → Spurious s s'
      → Inv n t paths s.shared s.workers s.main
      → Inv n t paths s'.shared s'.workers s'.main
  Spurious-Inv (spurious r xs ys run w) inv = woken-Inv r xs ys (at_workers w inv)

pub Reach-Inv :
    {strlen : Ptr → ℕ} {n t : ℕ} {paths : List Ptr} {s : Client}
    → Reach strlen n t paths s
    → Inv n t paths s.shared s.workers s.main
Reach-Inv {n} {t} {paths} start = initial-Inv n t paths
Reach-Inv (later r step) = Step-Inv step (Reach-Inv r)
Reach-Inv (unprompted r step) = Spurious-Inv step (Reach-Inv r)
