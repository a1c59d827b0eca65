-- ===== src/Qtest/Commands.antt =====
-- The commands of qtest.c. `args` are argv with the command's name first; the strings of argv lie
-- outside the heap.
use cohere_technology_skillb.Prelude.{
  ℕ, zero, suc, ◌+◌, ◌-◌, ◌%◌, ◌^◌, Bool, true, false, not, ◌&&◌, Option, none, some, List, [], ◌∷◌,
  ◌++◌, ◌==◌, ltb, if◌then◌else◌, replicate, get_elem?, take,
}
use cohere_technology_skillb.Memory.{Ptr, null, ok, fault, exit, out_of_fuel, Cmd, pure, ◌>>=◌}
use cohere_technology_skillb.Content.Strcmp.{strcmp, eq}
use cohere_technology_skillb.Queue.{
  Cell, load_ele, load_queue, q_new, q_free, q_insert_head, q_insert_tail, q_remove_head, q_size,
  q_reverse,
}
use cohere_technology_skillb.Queue.Strings.{c_string}
use cohere_technology_skillb.Console.Interpreter.{get_int}
use cohere_technology_skillb.Qtest.{Tester, World, int_lt, clear_error, guarded, show_queue}

-- What a command returns, with the state; `none` is the end of the process or undefined behaviour.
abbrev pub Result : Type 0
Result = Option (Bool × Tester)

-- show_queue(3) and `return good`.
abbrev pub shown : World → Bool → Tester → Result
shown w good t = elim (show_queue w 3 t) [ none ↦ none | some (drawn, t') ↦ some (good, t') ]

-- show_queue(3) and `return good && !error_check()`.
abbrev pub shown_checked : World → Bool → Tester → Result
shown_checked w good t = elim (show_queue w 3 t) [
  | none ↦ none
  | some (drawn, t') ↦ some (good && not t'.error_occurred, if good then clear_error t' else t')
]

-- set_cautious_mode(false) for a big queue. big_queue_size is converted to a size_t.
abbrev pub begin_free : Tester → Tester
begin_free t = record t {
  cautious_mode =
      not (
        ltb
          (if ltb t.big_queue_size (2 ^ 31)
            then t.big_queue_size
            else t.big_queue_size + (2 ^ 64 - 2 ^ 32))
          t.qcnt)
      && t.cautious_mode;
}

-- allocation_check
abbrev pub no_leak : Tester → Bool
no_leak t = t.heap.live == 0

unfoldable pub do_free : World → List (List ℕ) → Tester → Result
unfolding guarded show_queue
do_free w (name ∷ []) t =
    let (r, t') = guarded w (q_free w.time t.q) (begin_free (clear_error t)) in
    elim (show_queue w 3 (record t' { cautious_mode = true; q = null; qcnt = 0 })) [
      | none ↦ none
      | some (drawn, t'') ↦
          let good = no_leak t'' in
          some (good && not t''.error_occurred, if good then clear_error t'' else t'')
    ]
do_free w args t = some (false, t)

-- The rest of do_new, for the result of do_free.
abbrev new_after : World → Bool → Tester → Result
new_after w good t =
    let (r, t') = guarded w q_new (clear_error t) in
    let q' : Ptr = elim r [ none ↦ t'.q | some q ↦ q ] in
    shown_checked w good (record t' { q = q'; qcnt = 0 })

pub do_new : World → List (List ℕ) → Tester → Result
unfolding guarded show_queue do_free
do_new w (name ∷ []) t =
    if t.q == null
    then new_after w true t
    else elim (do_free w (name ∷ []) t) [ none ↦ none | some (good, t') ↦ new_after w good t' ]
do_new w args t = some (false, t)

-- A failing operation is counted, and is an error once the limit has been reached.
abbrev pub failed : Tester → Tester
failed t = record t { fail_count = (t.fail_count + 1) % 2 ^ 32 }

abbrev pub tolerated : Tester → Bool
tolerated t = int_lt t.fail_count t.fail_limit

abbrev pub count_up : Tester → Tester
count_up t = record t { qcnt = (t.qcnt + 1) % 2 ^ 64 }

abbrev pub count_down : Tester → Tester
count_down t = record t { qcnt = (t.qcnt + 2 ^ 64 - 1) % 2 ^ 64 }

-- The value of the first element, after an insertion.
abbrev pub first_value : Ptr → Cmd Cell Ptr
first_value q = do s ← load_queue q; e ← load_ele s.head; pure e.value

-- q_insert_head or q_insert_tail, and the value of the first element if it was successful.
abbrev pub insert_once : (Ptr → List ℕ → Cmd Cell Bool) → Ptr → List ℕ → Cmd Cell (Bool × Ptr)
insert_once insert q s = do
  done ← insert q s
  if done then (first_value q >>= λ v. pure (true, v)) else pure (false, null)

-- The rest of a loop of insertions while `ok` is `good`.
abbrev go_on : (good : Bool) → (rest : Tester → Bool × Tester) → Tester → Bool × Tester
go_on false rest t = (false, t)
go_on true rest t = elim t.error_occurred [ true ↦ (false, clear_error t) | false ↦ rest t ]

-- The body of the loop of do_insert_head behind the call, for what the call has given.
abbrev head_next :
    (rest : Ptr → Tester → Bool × Tester)
    → (r : ℕ) → (lasts : Ptr) → Option (Bool × Ptr) × Tester
    → Bool × Tester
head_next rest r lasts (none, t) = (true, t)
head_next rest r lasts (some (true, value), t) =
    go_on (not (value == null) && not ((r == 1) && (lasts == value))) (rest value) (count_up t)
head_next rest r lasts (some (false, value), t) =
    go_on (tolerated (failed t)) (rest lasts) (failed t)

-- The loop of do_insert_head for `reps` more rounds from the r-th on, while `ok` holds, with the
-- last value.
unfoldable pub head_loop : World → List ℕ → (reps r : ℕ) → (lasts : Ptr) → Tester → Bool × Tester
unfolding guarded
head_loop w s zero r lasts t = (true, t)
head_loop w s (suc k) r lasts t =
    head_next (head_loop w s k (r + 1)) r lasts (guarded w (insert_once q_insert_head t.q s) t)

-- The body of the loop of do_insert_tail behind the call.
abbrev tail_next : (rest : Tester → Bool × Tester) → Option (Bool × Ptr) × Tester → Bool × Tester
tail_next rest (none, t) = (true, t)
tail_next rest (some (true, value), t) = go_on (not (value == null)) rest (count_up t)
tail_next rest (some (false, value), t) = go_on (tolerated (failed t)) rest (failed t)

-- The loop of do_insert_tail.
unfoldable pub tail_loop : World → List ℕ → (reps : ℕ) → Tester → Bool × Tester
unfolding guarded
tail_loop w s zero t = (true, t)
tail_loop w s (suc k) t =
    tail_next (tail_loop w s k) (guarded w (insert_once q_insert_tail t.q s) t)

-- The rounds of a loop to the int `reps`.
abbrev rounds_of : ℕ → ℕ
rounds_of reps = if ltb reps (2 ^ 31) then reps else 0

-- The count that a third argument gives; `none` where it is no number.
abbrev pub reps_of : World → List (List ℕ) → Option ℕ
reps_of w [] = some 1
reps_of w (n ∷ rest) = elim (get_int w.strtol n) [ none ↦ none | some reps ↦ some (rounds_of reps) ]

abbrev insert_result : World → Bool × Tester → Result
insert_result w (good, t) = shown w good t

unfoldable pub do_insert_head : World → List (List ℕ) → Tester → Result
unfolding head_loop show_queue
do_insert_head w (name ∷ s ∷ []) t = insert_result w (head_loop w s 1 0 null (clear_error t))
do_insert_head w (name ∷ s ∷ n ∷ []) t = elim (reps_of w (n ∷ [])) [
  | none ↦ some (false, t)
  | some reps ↦ insert_result w (head_loop w s reps 0 null (clear_error t))
]
do_insert_head w args t = some (false, t)

unfoldable pub do_insert_tail : World → List (List ℕ) → Tester → Result
unfolding tail_loop show_queue
do_insert_tail w (name ∷ s ∷ []) t = insert_result w (tail_loop w s 1 (clear_error t))
do_insert_tail w (name ∷ s ∷ n ∷ []) t = elim (reps_of w (n ∷ [])) [
  | none ↦ some (false, t)
  | some reps ↦ insert_result w (tail_loop w s reps (clear_error t))
]
do_insert_tail w args t = some (false, t)

-- MAXSTRING, which is STRINGPAD too.
abbrev pub string_pad : ℕ
string_pad = 1024

-- The buffer of do_remove_head, before q_remove_head.
abbrev pub removes_buffer : Tester → List ℕ
removes_buffer t = 0 ∷ (replicate (t.string_length + string_pad - 1) b'X' ++ (0 ∷ []))

-- The string that is expected, cut to the length of the buffer.
abbrev pub expected : Tester → List ℕ → List ℕ
expected t s = take t.string_length s

abbrev pub matches : Tester → List ℕ → List (List ℕ) → Bool
matches t out [] = true
matches t out (s ∷ rest) = elim (strcmp (c_string out) (expected t s)) [ eq ↦ true | other ↦ false ]

-- The tests on the buffer after a removal: it holds a string, and the padding is as it was.
abbrev pub stored : Tester → List ℕ → Bool
stored t [] = false
stored t (c ∷ out) =
    not (c == 0) && (elim (get_elem? out t.string_length) [ none ↦ false | some d ↦ d == b'X' ])

-- A read of q->head that stands outside exception_setup; `none` ends the process.
abbrev pub peek_head : Tester → Option Ptr
peek_head t = if t.q == null then some null else elim (load_queue t.q t.heap) [
  | ok s h ↦ some s.head
  | fault ↦ none
  | exit ↦ none
  | out_of_fuel ↦ none
]

-- The end of do_remove_head, for what q_remove_head has returned and left in the buffer.
abbrev pub remove_end : World → List (List ℕ) → Option (Bool × Option (List ℕ)) × Tester → Result
remove_end w checks (some (true, some out), t) =
    shown_checked w (stored t out && matches t out checks) (count_down t)
remove_end w checks (r, t) =
    shown_checked w (elim checks [ [] ↦ tolerated (failed t) | s ∷ rest ↦ false ]) (failed t)

-- string_length is taken to be less than 2 ^ 31 - 1025; the two buffers are taken to be allocated.
unfoldable pub do_remove_head : World → List (List ℕ) → Tester → Result
unfolding guarded show_queue
do_remove_head w [] t = some (false, t)
do_remove_head w (name ∷ s ∷ s' ∷ rest) t = some (false, t)
do_remove_head w (name ∷ checks) t = elim (peek_head t) [
  | none ↦ none
  | some head ↦ remove_end w checks (
      guarded w (q_remove_head t.q (some (removes_buffer t)) (t.string_length + 1)) (clear_error t))
]

abbrev quiet_end : World → Option (Bool × Option (List ℕ)) × Tester → Result
quiet_end w (some (true, out), t) = shown_checked w true (count_down t)
quiet_end w (r, t) = shown_checked w (tolerated (failed t)) (failed t)

unfoldable pub do_remove_head_quiet : World → List (List ℕ) → Tester → Result
unfolding guarded show_queue
do_remove_head_quiet w (name ∷ []) t = elim (peek_head t) [
  | none ↦ none
  | some head ↦ quiet_end w (guarded w (q_remove_head t.q none 0) (clear_error t))
]
do_remove_head_quiet w args t = some (false, t)

-- In noallocate mode a call of malloc would end the process; q_reverse makes none.
unfoldable pub do_reverse : World → List (List ℕ) → Tester → Result
unfolding guarded show_queue
do_reverse w (name ∷ []) t =
    let (r, t') =
      guarded w (q_reverse w.time t.q) (record (clear_error t) { noallocate_mode = true }) in
    elim (show_queue w 3 (record t' { noallocate_mode = false })) [
      | none ↦ none
      | some (drawn, t'') ↦ some (not t''.error_occurred, clear_error t'')
    ]
do_reverse w args t = some (false, t)

-- The rest of the loop of do_size, for what one round has given.
abbrev size_next :
    (rest : ℕ → Tester → (Bool × ℕ) × Tester) → (cnt : ℕ) → Option ℕ × Tester → (Bool × ℕ) × Tester
size_next rest cnt (none, t) = ((true, cnt), t)
size_next rest cnt (some n, t) = elim t.error_occurred [
  | true ↦ ((false, n), clear_error t)
  | false ↦ rest n t
]

-- The loop of do_size over `reps` rounds, while `ok` holds, with the last count.
unfoldable pub size_loop : World → (reps cnt : ℕ) → Tester → (Bool × ℕ) × Tester
unfolding guarded
size_loop w zero cnt t = ((true, cnt), t)
size_loop w (suc k) cnt t = size_next (size_loop w k) cnt (guarded w (q_size t.q) t)

-- An int as a size_t.
abbrev to_size_t : ℕ → ℕ
to_size_t n = if ltb n (2 ^ 31) then n else n + (2 ^ 64 - 2 ^ 32)

abbrev size_end : World → (Bool × ℕ) × Tester → Result
size_end w ((good, cnt), t) = shown_checked w (good && (t.qcnt == to_size_t cnt)) t

-- A count that is no number is reported with argv[2], behind the end of argv: undefined behaviour.
unfoldable pub do_size : World → List (List ℕ) → Tester → Result
unfolding size_loop show_queue
do_size w [] t = some (false, t)
do_size w (name ∷ n ∷ n' ∷ rest) t = some (false, t)
do_size w (name ∷ args) t = elim (reps_of w args) [
  | none ↦ none
  | some reps ↦ size_end w (size_loop w reps 0 (clear_error t))
]

pub do_show : World → List (List ℕ) → Tester → Result
unfolding show_queue
do_show w (name ∷ []) t = show_queue w 0 t
do_show w args t = some (false, t)

-- The helper that the command quit runs.
pub queue_quit : World → List (List ℕ) → Tester → Result
unfolding guarded
queue_quit w args t =
    let (r, t') = guarded w (q_free w.time t.q) (begin_free t) in
    some (no_leak t', record t' { cautious_mode = true })
