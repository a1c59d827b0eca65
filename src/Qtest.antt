-- ===== src/Qtest.antt =====
-- FUND-120/0_C_Programming_Lab/cprogramminglab-handout/qtest.c: the commands that test the queue. A
-- command is an Action of the console on the state Tester; the allocator is that of Memory, whose
-- count of live blocks stands for that of harness.c. A fault or an endless loop in the queue's code
-- raises the signal whose handler jumps back to exception_setup.
pub mod Commands
pub mod Setup
pub mod State
pub mod Insert
pub mod Remove
pub mod Free
pub mod Size
mod Tests
use cohere_technology_skillb.Prelude.{
  ℕ, zero, suc, ◌+◌, ◌-◌, ◌%◌, ◌^◌, Bool, true, false, not, ◌&&◌, Option, none, some, List, [], ◌∷◌,
  ◌==◌, ltb, if◌then◌else◌,
}
use cohere_technology_skillb.Memory.{
  Ptr, null, Run, ok, fault, exit, out_of_fuel, Cmd, pure, ◌>>=◌, ◌>>◌,
}
use cohere_technology_skillb.Queue.{Cell, QueueHeap, load_ele, load_text, load_queue}

-- The static variables, with those of harness.c and report.c that the commands use. `int` values are
-- bit patterns, qcnt is a size_t.
pub record Tester : Type 0 where
  pub heap : QueueHeap
  pub q : Ptr
  pub qcnt : ℕ
  pub big_queue_size : ℕ
  pub fail_limit : ℕ
  pub fail_count : ℕ
  pub string_length : ℕ
  pub verblevel : ℕ
  pub cautious_mode : Bool
  pub noallocate_mode : Bool
  pub error_occurred : Bool

-- What the outside decides: the steps before the alarm rings, the heap that an interrupted call of
-- the queue's code leaves, and what is read from a local variable that siglongjmp has left
-- indeterminate.
pub record World : Type 0 where
  pub time : ℕ
  pub interrupted : QueueHeap → QueueHeap
  pub indeterminate : Bool
  pub strtol : List ℕ → ℕ × List ℕ

-- a < b on int
abbrev pub int_lt : ℕ → ℕ → Bool
int_lt a b = ltb ((a + 2 ^ 31) % 2 ^ 32) ((b + 2 ^ 31) % 2 ^ 32)

abbrev pub clear_error : Tester → Tester
clear_error t = record t { error_occurred = false }

-- if (exception_setup(true)) { m }; exception_cancel(): the result of `m`, `none` after a signal,
-- whose handler calls trigger_exception. The queue's code never calls exit.
pub guarded : {A : Type 0} → World → Cmd Cell A → Tester → Option A × Tester
guarded w m t = elim (m t.heap) [
  | ok a h ↦ (some a, record t { heap = h })
  | fault ↦ (none, record t { heap = w.interrupted t.heap; error_occurred = true })
  | exit ↦ (none, record t { heap = w.interrupted t.heap; error_occurred = true })
  | out_of_fuel ↦ (none, record t { heap = w.interrupted t.heap; error_occurred = true })
]

-- The reads of one round of show_queue: the value is printed while few have been.
abbrev pub show_element : Bool → Ptr → Cmd Cell Ptr
show_element printed e = do
  el ← load_ele e
  if printed then load_text el.value >> pure el.next else pure el.next

-- The rest of the loop, for what one round has given.
abbrev show_next :
    World
    → (rest : Ptr → Tester → (Bool × Bool) × Tester) → Option Ptr × Tester
    → (Bool × Bool) × Tester
show_next w rest (none, t) = ((true, w.indeterminate), t)
show_next w rest (some next, t) = elim t.error_occurred [
  | true ↦ ((false, next == null), clear_error t)
  | false ↦ rest next t
]

-- The loop of show_queue over the rounds that qcnt leaves, with the count; the result is the last
-- `ok` and whether `e` is NULL at its end.
pub show_loop : World → (rounds cnt : ℕ) → Ptr → Tester → (Bool × Bool) × Tester
unfolding guarded
show_loop w zero cnt e t = ((true, e == null), t)
show_loop w (suc k) cnt e t = elim (e == null) [
  | true ↦ ((true, true), t)
  | false ↦
      show_next w (show_loop w k (cnt + 1))
        (guarded w (show_element (int_lt cnt t.big_queue_size) e) t)
]

-- The read of q->head stands outside exception_setup: `none` is a signal with no place to jump to,
-- which ends the process.
pub show_queue : World → (vlevel : ℕ) → Tester → Option (Bool × Tester)
unfolding show_loop
show_queue w vlevel t =
    if int_lt t.verblevel vlevel
    then some (true, t)
    else (if t.q == null then some (true, t) else elim (load_queue t.q t.heap) [
      | ok s h ↦ let ((good, ended), t') = show_loop w t.qcnt 0 s.head t in some (good && ended, t')
      | fault ↦ none
      | exit ↦ none
      | out_of_fuel ↦ none
    ])
