-- ===== src/Queue/Insert/Blocks.antt =====
-- What the two insertions of queue.c share: the blocks that they allocate.
use cohere_technology_skillb.Prelude.{
  ℕ, zero, suc, ◌+◌, ◌≡◌, ◌≢◌, refl, true, false, List, [], ◌∷◌, arith, ◌==◌, ==-ne, leb, length,
  replicate, drop,
}
use cohere_technology_skillb.Memory.{Ptr, null}
use cohere_technology_skillb.Memory.Rules.{Fresh, NoMemory, not_null}
use cohere_technology_skillb.Queue.Segment
use cohere_technology_skillb.Queue.Segment.{Entries, ◌∉◌, IsQueue}
use cohere_technology_skillb.Queue.{Queue, QueueHeap}

-- The two allocations of an insertion return distinct unused addresses.
pub record TwoBlocks (h : QueueHeap) (n v : Ptr) (rest : List Ptr) : Type 0 where
  pub supplied : h.supply ≡ n ∷ v ∷ rest
  pub first : Fresh h n
  pub second : Fresh h v
  pub apart : n ≢ v

-- One of the two allocations of an insertion fails.
pub data Fails (h : QueueHeap) : Type 0 where
  first_fails : NoMemory h.supply → Fails h
  second_fails :
      {n : Ptr} {rest : List Ptr} → h.supply ≡ n ∷ rest → Fresh h n → NoMemory rest → Fails h

length-replicate : (k : ℕ) → length (replicate {A = ℕ} k 0x55) ≡ k
length-replicate zero = refl
length-replicate (suc k) = omega (arith, length-replicate k)

pub fits : (k : ℕ) → leb (k + 1) (length (replicate {A = ℕ} (k + 1) 0x55)) ≡ true
fits k = rw (length-replicate (k + 1)) (ground arith)

pub drop-replicate : (k : ℕ) → drop k (replicate {A = ℕ} k 0x55) ≡ []
drop-replicate zero = refl
drop-replicate (suc k) = drop-replicate k

-- The tests that tell the addresses of an insertion apart.
pub record Apart (q n v : Ptr) : Type 0 where
  pub q0 : (q == null) ≡ false
  pub n0 : (n == null) ≡ false
  pub v0 : (v == null) ≡ false
  pub qn : (q == n) ≡ false
  pub qv : (q == v) ≡ false
  pub nv : (n == v) ≡ false
  pub vn : (v == n) ≡ false

module _ {h : QueueHeap} {q n v : Ptr} {s : Queue} {xs : Entries} {rest : List Ptr}
    (is : IsQueue h q s xs) (two : TwoBlocks h n v rest) where
  pub Apart_lem : Apart q n v
  Apart_lem = record {
    q0 = not_null is.object;
    n0 = ==-ne n null two.first.ne_null;
    v0 = ==-ne v null two.second.ne_null;
    qn = ground (arith, two.first.unused, is.object.holds);
    qv = ground (arith, two.second.unused, is.object.holds);
    nv = ==-ne n v two.apart;
    vn = ground (arith, two.apart);
  }

  pub first-not-mem : n ∉ xs
  first-not-mem = Segment.not-mem_of_none n is.chain two.first.unused

  pub second-not-mem : v ∉ xs
  second-not-mem = Segment.not-mem_of_none v is.chain two.second.unused

pub queue-not-mem : {h : QueueHeap} {q : Ptr} {s : Queue} {xs : Entries} → IsQueue h q s xs → q ∉ xs
queue-not-mem {q} is = Segment.not-mem_of_queue q is.chain is.object.holds
