-- ===== src/Harness.antt =====
-- FUND-120/0_C_Programming_Lab/cprogramminglab-handout/harness.c: the malloc and free that the
-- queue is tested with. An allocated block is an object of Memory at the address of its BELE; the
-- payload begins 32 bytes behind. The loop that looks for a block runs on fuel. Messages are not
-- modelled; a fatal one ends the process.
pub mod Links
pub mod Malloc
pub mod Free
pub mod Release
pub mod Misuse
mod Tests
use cohere_technology_skillb.Prelude.{
  ℕ, zero, suc, ◌+◌, ◌-◌, ◌%◌, ◌^◌, Bool, true, false, not, ◌||◌, ◌&&◌, List, [], ◌∷◌, ◌==◌, ltb,
  if◌then◌else◌, length, replicate,
}
use cohere_technology_skillb.Memory.{
  Ptr, null, Heap, Run, fault, exit, out_of_fuel, Cmd, pure, ◌>>=◌, ◌>>◌, load, store, malloc, free,
}

-- BELE, with the footer behind the payload.
pub record Block : Type 0 where
  pub next : Ptr
  pub prev : Ptr
  pub payload_size : ℕ
  pub magic_header : ℕ
  pub payload : List ℕ
  pub footer : ℕ

abbrev pub magicheader : ℕ
magicheader = 0xdead_beef

abbrev pub magicfree : ℕ
magicfree = 0xffff_ffff

abbrev pub magicfooter : ℕ
magicfooter = 0xbeef_dead

abbrev pub fillchar : ℕ
fillchar = 0x55

-- sizeof(block_ele_t)
abbrev pub header_size : ℕ
header_size = 32

-- The static variables.
pub record Harness : Type 0 where
  pub allocated : Ptr
  pub allocated_count : ℕ
  pub cautious_mode : Bool
  pub noallocate_mode : Bool
  pub error_occurred : Bool

abbrev pub BlockHeap : Type 0
BlockHeap = Heap Block

-- A block that the program has not damaged.
abbrev pub whole : Ptr → Ptr → ℕ → List ℕ → Block
whole n p size bytes = record {
  next = n;
  prev = p;
  payload_size = size;
  magic_header = magicheader;
  payload = bytes;
  footer = magicfooter;
}

abbrev pub set_next : Ptr → Ptr → Cmd Block (Unit {0})
set_next b x = load b >>= λ e. store b (record e { next = x })

abbrev pub set_prev : Ptr → Ptr → Cmd Block (Unit {0})
set_prev b x = load b >>= λ e. store b (record e { prev = x })

-- sizeof(size_t)
abbrev pub footer_size : ℕ
footer_size = 8

-- `fails` is what fail_allocation draws. The contents of a new block are those that test_malloc
-- writes, since it writes all of them. A size for which the sum of the sizes wraps around gets a
-- block that is too small, and memset runs past its end.
pub test_malloc : Bool → ℕ → Harness → Cmd Block (Ptr × Harness)
test_malloc fails size st =
    if st.noallocate_mode
    then (λ _. exit)
    else (if fails then pure (null, st) else do
      b ← malloc (whole st.allocated null size (replicate size fillchar))
      if b == null
          then (λ _. exit)
          else (if not (ltb (size + (header_size + footer_size)) (2 ^ 64)) then (λ _. fault) else do
            if st.allocated == null then pure tt else set_prev st.allocated b
            pure (
              b + header_size,
              record st { allocated = b; allocated_count = (st.allocated_count + 1) % 2 ^ 64 },
            )))

-- The loop of find_header in cautious mode.
pub find_loop : ℕ → (ab b : Ptr) → Cmd Block Bool
find_loop zero ab b = λ _. out_of_fuel
find_loop (suc k) ab b =
    if ab == null
    then pure false
    else do e ← load ab; if ab == b then pure true else find_loop k e.next b

-- find_header without the checks of the marks.
abbrev pub header_of : Ptr → Ptr
header_of p = (p + 2 ^ 64 - header_size) % 2 ^ 64

abbrev pub overwritten : Block → Block
overwritten e = record e {
  magic_header = magicfree;
  footer = magicfree;
  payload = replicate e.payload_size fillchar;
}

-- Unlink from the list and free, for the block's `prev` and `next`; the result is the first block.
pub unlink : (b before n first : Ptr) → Cmd Block Ptr
unlink b before n first = do
  first' ← if before == null then pure n else (set_next before n >> pure first)
  if n == null then pure tt else set_prev n before
  free b
  pure first'

pub test_free : ℕ → Ptr → Harness → Cmd Block Harness
unfolding find_loop unlink
test_free k p st =
    if st.noallocate_mode
    then (λ _. exit)
    else (if p == null then pure (record st { error_occurred = true }) else do
      let b = header_of p
      found ← if st.cautious_mode then find_loop k st.allocated b else pure true
      e ← load b
      let good = found && ((e.magic_header == magicheader) && (e.footer == magicfooter))
      store b (overwritten e)
      first ← unlink b e.prev e.next st.allocated
      pure (record st {
        allocated = first;
        allocated_count = (st.allocated_count + 2 ^ 64 - 1) % 2 ^ 64;
        error_occurred = st.error_occurred || not good;
      }))

pub allocation_check : Harness → ℕ
allocation_check st = st.allocated_count

pub set_cautious_mode : Bool → Harness → Harness
set_cautious_mode cautious st = record st { cautious_mode = cautious }

pub set_noallocate_mode : Bool → Harness → Harness
set_noallocate_mode noallocate st = record st { noallocate_mode = noallocate }

-- The flag, which is cleared.
pub error_check : Harness → Bool × Harness
error_check st = (st.error_occurred, record st { error_occurred = false })
