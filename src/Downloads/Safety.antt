-- ===== src/Downloads/Safety.antt =====
-- What the other threads can see in every state, and what has happened when main returns.
use cohere_technology_skillb.Prelude.{
  ℕ, ◌+◌, ◌*◌, ◌≤◌, ◌≡◌, refl, sym, ap, ◌∙◌, List, [], ◌∷◌, ◌++◌, arith, length, length-append,
}
use mathlib.Core.Path.{subst}
use mathlib.Core.List.{append-nil}
use cohere_technology_skillb.Memory.{Ptr}
use cohere_technology_skillb.Downloads.{Pc, finished, done, Client, requests_of, Reach}
use cohere_technology_skillb.Downloads.Counts.{total, holds, owed, AllFinished}
use cohere_technology_skillb.Downloads.Invariant.{main_holds, Inv}
use cohere_technology_skillb.Downloads.Preserve.{Reach-Inv}

-- In every state one thread at most holds the mutex, and what the workers have taken, what is in the
-- queue and what main has still to put there are the requests in their order: none is lost, taken
-- twice or overtaken.
pub Reach-order :
    {strlen : Ptr → ℕ} {n t : ℕ} {paths : List Ptr} {s : Client}
    → Reach strlen n t paths s
    → (total holds s.workers + main_holds s.main ≤ 1)
      × (s.shared.taken ++ (s.shared.queue ++ requests_of paths s.main) ≡ paths)
Reach-order {s} r = let inv = Reach-Inv r in (ground (arith, inv.exclusive), inv.order)

AllFinished-owed : (ws : List Pc) → AllFinished ws → total owed ws ≡ 0
AllFinished-owed [] f = refl
AllFinished-owed (finished ∷ ws) f = omega (arith, AllFinished-owed ws f.1)
AllFinished-owed (p ∷ ws) f = absurd (cc (f.0))

append-long : (xs ys zs : List Ptr) → xs ++ ys ≡ zs → length xs ≡ length zs → ys ≡ []
append-long xs [] zs e l = refl
append-long xs (y ∷ ys) zs e l = absurd (omega (arith, ap length e, length-append xs (y ∷ ys), l))

-- When main returns, every request has been taken, in the order in which main prepared them, the
-- queue is empty and all threads have finished.
pub done-taken :
    {strlen : Ptr → ℕ} {n t : ℕ} {paths : List Ptr} {s : Client}
    → Reach strlen n t paths s
    → length paths ≡ n * t
    → s.main ≡ done
    → (s.shared.taken ≡ paths)
      × ((s.shared.queue ≡ []) × ((length s.workers ≡ t) × AllFinished s.workers))
done-taken {n} {t} {paths} {s} r enough e =
    let i : Inv n t paths s.shared s.workers done =
      subst (λ x. Inv n t paths s.shared s.workers x) e (Reach-Inv r) in
    let all : length s.shared.taken ≡ length paths =
      omega (arith, i.rounds, enough, AllFinished-owed s.workers i.joined) in
    let rest = append-long s.shared.taken (s.shared.queue ++ []) paths i.order all in
    let nothing : s.shared.queue ≡ [] = sym (append-nil s.shared.queue) ∙ rest in
    let order : s.shared.taken ++ [] ≡ paths = ap (λ l. s.shared.taken ++ l) (sym rest) ∙ i.order in
    (sym (append-nil s.shared.taken) ∙ order, (nothing, (omega (arith, i.created), i.joined)))
