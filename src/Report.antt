-- ===== src/Report.antt =====
-- FUND-120/0_C_Programming_Lab/cprogramminglab-handout/report.c: the accounting of memory that the
-- console and the test program use. A size_t wraps at 2 ^ 64. What malloc, calloc and realloc
-- return is an argument; messages are not modelled, and a fatal one ends the process.
pub mod Steps
pub mod Invariant
mod Tests
use cohere_technology_skillb.Prelude.{
  ℕ, ◌+◌, ◌-◌, ◌*◌, ◌%◌, ◌^◌, Bool, ◌&&◌, Option, none, some, List, length, ◌==◌, ltb,
  if◌then◌else◌,
}
use cohere_technology_skillb.Memory.{Ptr, null}

abbrev pub word : ℕ → ℕ
word n = n % 2 ^ 64

pub record Report : Type 0 where
  pub allocate_cnt : ℕ
  pub allocate_bytes : ℕ
  pub free_cnt : ℕ
  pub free_bytes : ℕ
  pub peak_bytes : ℕ
  pub last_peak_bytes : ℕ
  pub current_bytes : ℕ

pub data Outcome : Type 0 where
  returned : Ptr → Report → Outcome
  exit : Outcome
  fault : Outcome

-- MAX
abbrev pub max : ℕ → ℕ → ℕ
max a b = if ltb b a then a else b

-- a - b on size_t
abbrev pub minus : ℕ → ℕ → ℕ
minus a b = word (a + 2 ^ 64 - b)

abbrev pub check_exceed : ℕ → ℕ → Report → Bool
check_exceed mblimit new_bytes r =
    ltb 0 mblimit && ltb (word (mblimit * 2 ^ 20)) (word (new_bytes + r.current_bytes))

-- The counters after `count` bytes have been allocated and `current` are in use.
abbrev pub allocated : ℕ → ℕ → Report → Report
allocated count current r = record r {
  allocate_cnt = word (r.allocate_cnt + 1);
  allocate_bytes = word (r.allocate_bytes + count);
  current_bytes = current;
  peak_bytes = max r.peak_bytes current;
  last_peak_bytes = max r.last_peak_bytes current;
}

abbrev pub freed : ℕ → Report → Report
freed count r = record r {
  free_cnt = word (r.free_cnt + 1);
  free_bytes = word (r.free_bytes + count);
}

-- `p` is what the allocator returns.
unfoldable pub malloc_or_fail : ℕ → ℕ → Ptr → Report → Outcome
malloc_or_fail mblimit bytes p r =
    if check_exceed mblimit bytes r
    then exit
    else if p == null
    then exit
    else returned p (allocated bytes (word (r.current_bytes + bytes)) r)

unfoldable pub calloc_or_fail : ℕ → (cnt bytes : ℕ) → Ptr → Report → Outcome
calloc_or_fail mblimit cnt bytes p r =
    if check_exceed mblimit (word (cnt * bytes)) r
    then exit
    else if p == null
    then exit
    else returned p (allocated (word (cnt * bytes)) (word (r.current_bytes + word (cnt * bytes))) r)

unfoldable pub realloc_or_fail : ℕ → (old_bytes new_bytes : ℕ) → Ptr → Report → Outcome
realloc_or_fail mblimit old_bytes new_bytes p r =
    if ltb old_bytes new_bytes && check_exceed mblimit (minus new_bytes old_bytes) r
    then exit
    else if p == null
    then exit
    else returned p (
        freed old_bytes
          (allocated new_bytes (word (r.current_bytes + minus new_bytes old_bytes)) r))

-- `none` is a NULL string.
unfoldable pub strsave_or_fail : ℕ → Option (List ℕ) → Ptr → Report → Outcome
strsave_or_fail mblimit none p r = returned null r
strsave_or_fail mblimit (some s) p r =
    if check_exceed mblimit (length s + 1) r
    then exit
    else if p == null
    then exit
    else returned p (allocated (length s + 1) (word (r.current_bytes + (length s + 1))) r)

-- A NULL block is reported and counted all the same.
unfoldable pub free_block : ℕ → Report → Report
free_block bytes r = record (freed bytes r) { current_bytes = minus r.current_bytes bytes }

unfoldable pub free_array : (cnt bytes : ℕ) → Report → Report
free_array cnt bytes r = record (freed (word (cnt * bytes)) r) {
  current_bytes = minus r.current_bytes (word (cnt * bytes));
}

-- strlen of NULL is undefined.
unfoldable pub free_string : Option (List ℕ) → Report → Outcome
unfolding free_block
free_string none r = fault
free_string (some s) r = returned null (free_block (length s + 1) r)

unfoldable pub reset_peak_bytes : Report → Report
reset_peak_bytes r = record r { last_peak_bytes = r.current_bytes }
