-- ===== src/Downloads/Invariant.antt =====
-- What holds between the threads in every state.
use cohere_technology_skillb.Prelude.{
  ℕ, ◌+◌, ◌*◌, ◌≤◌, ◌<◌, ◌≡◌, refl, List, ◌++◌, arith, length, if◌then◌else◌,
}
use cohere_technology_skillb.Memory.{Ptr}
use cohere_technology_skillb.Downloads.{
  Shared, Pc, Main, creating, preparing, holding, enqueued, signalled, joining, done, ended,
  requests_of, initial,
}
use cohere_technology_skillb.Downloads.Counts.{
  total, holds, sleeps, arriving, owed, FirstFinished, AllFinished,
}

abbrev pub main_holds : Main → ℕ
main_holds (creating left) = 0
main_holds (preparing rest) = 0
main_holds (holding p rest) = 1
main_holds (enqueued rest) = 1
main_holds (signalled rest) = 1
main_holds (joining next) = 0
main_holds done = 0
main_holds (ended last) = main_holds last

-- Whether main has put a request into the queue for which it has not signalled.
abbrev pub unsignalled : Main → ℕ
unsignalled (creating left) = 0
unsignalled (preparing rest) = 0
unsignalled (holding p rest) = 0
unsignalled (enqueued rest) = 1
unsignalled (signalled rest) = 0
unsignalled (joining next) = 0
unsignalled done = 0
unsignalled (ended last) = unsignalled last

abbrev pub uncreated : Main → ℕ
uncreated (creating left) = left
uncreated (preparing rest) = 0
uncreated (holding p rest) = 0
uncreated (enqueued rest) = 0
uncreated (signalled rest) = 0
uncreated (joining next) = 0
uncreated done = 0
uncreated (ended last) = uncreated last

abbrev pub Joined : List Pc → Main → Type 0
Joined ws (creating left) = Unit
Joined ws (preparing rest) = Unit
Joined ws (holding p rest) = Unit
Joined ws (enqueued rest) = Unit
Joined ws (signalled rest) = Unit
Joined ws (joining next) = FirstFinished next ws
Joined ws done = AllFinished ws
Joined ws (ended last) = Joined ws last

-- While the process runs: one thread at most holds the mutex; the requests are taken in the order
-- in which main prepares them; each worker has its share still to take; where a worker waits for
-- the condition, enough workers are on their way to the requests in the queue.
pub record Inv (num_requests num_threads : ℕ) (paths : List Ptr) (m : Shared) (ws : List Pc)
    (main : Main) : Type 0 where
  pub exclusive : total holds ws + main_holds main ≡ (if m.mutex then 1 else 0)
  pub order : m.taken ++ (m.queue ++ requests_of paths main) ≡ paths
  pub created : length ws + uncreated main ≡ num_threads
  pub rounds :
      total owed ws + length m.taken + num_requests * uncreated main ≡ num_requests * num_threads
  pub wakeups : 0 < total sleeps ws → length m.queue ≤ total arriving ws + unsignalled main
  pub joined : Joined ws main

pub initial-Inv :
    (n t : ℕ) (paths : List Ptr)
    → Inv n t paths (initial t).shared (initial t).workers (initial t).main
initial-Inv n t paths = record {
  exclusive = refl;
  order = refl;
  created = omega arith;
  rounds = omega arith;
  wakeups = λ h. absurd (omega arith);
  joined = tt;
}
