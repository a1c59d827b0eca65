-- ===== src/Report/Invariant.antt =====
-- What the counters of report.c say, in every run.
use cohere_technology_skillb.Prelude.{
  ℕ, ◌+◌, ◌*◌, ◌^◌, ◌<◌, ◌≤◌, ◌≡◌, refl, Bool, true, false, List, if◌then◌else◌,
}
use cohere_technology_skillb.Memory.{Ptr}
use cohere_technology_skillb.Report.{word, Report, returned, exit}
use cohere_technology_skillb.Report.Steps.{sum}

-- The counters agree with the blocks in use: current_bytes is the sum of their sizes and what has
-- been allocated less what has been freed, lies below both peaks, and below the limit if one is set.
pub record IsAccount (mblimit : ℕ) (sizes : List ℕ) (r : Report) : Type 0 where
  pub small : sum sizes < 2 ^ 64
  pub current : r.current_bytes ≡ sum sizes
  pub balance : r.allocate_bytes ≡ word (r.free_bytes + sum sizes)
  pub below : r.current_bytes ≤ r.last_peak_bytes
  pub peaks : r.last_peak_bytes ≤ r.peak_bytes
  pub limited : 0 < mblimit → r.current_bytes ≤ mblimit * 2 ^ 20

-- A call that returns has passed both of its tests.
guarded :
    (c d : Bool) (p q : Ptr) (x r : Report)
    → (if c then exit else if d then exit else returned p x) ≡ returned q r
    → (c ≡ false) × (x ≡ r)
guarded true d p q x r e = absurd (cc)
guarded false true p q x r e = absurd (cc)
guarded false false p q x r e = (refl, cc)
