-- ===== src/Queue.antt =====
-- FUND-120/0_C_Programming_Lab/cprogramminglab-handout/queue.c and queue.h: a queue of strings as
-- a singly linked list with a tail pointer. The functions follow the C statement by statement over
-- the heap of Memory. The loops of q_free and q_reverse run on fuel.
pub mod Strings
pub mod Segment
pub mod Insert
pub mod Remove
pub mod Stale
pub mod Reverse
pub mod Free
pub mod New
mod Tests
use cohere_technology_skillb.Prelude.{
  ℕ, zero, suc, ◌+◌, ◌-◌, ◌%◌, ◌^◌, Bool, true, false, ◌||◌, Option, none, some, List, [], ◌∷◌,
  ◌++◌, ◌==◌, leb, if◌then◌else◌, length, drop, replicate,
}
use cohere_technology_skillb.Memory.{
  Ptr, null, fill_ptr, Heap, Run, fault, out_of_fuel, Cmd, pure, ◌>>=◌, ◌>>◌, load, store, malloc,
  free,
}
use Strings.{strncpy, set_byte}

-- list_ele_t
pub record Ele : Type 0 where
  pub value : Ptr
  pub next : Ptr

abbrev pub ele_of : Ptr → Ptr → Ele
ele_of v n = record { value = v; next = n }

-- queue_t; `size` is the bit pattern of an int.
pub record Queue : Type 0 where
  pub head : Ptr
  pub tail : Ptr
  pub size : ℕ

abbrev pub queue_of : Ptr → Ptr → ℕ → Queue
queue_of h t n = record { head = h; tail = t; size = n }

-- The objects that the queue allocates; a text is the bytes of a char array.
pub data Cell : Type 0 where
  queue : Queue → Cell
  ele : Ele → Cell
  text : List ℕ → Cell

abbrev pub QueueHeap : Type 0
QueueHeap = Heap Cell

abbrev int_mod : ℕ
int_mod = 2 ^ 32

-- What malloc returns holds the byte 0x55 throughout.
abbrev pub new_ele : Cell
new_ele = ele (ele_of fill_ptr fill_ptr)

abbrev pub new_queue : Cell
new_queue = queue (queue_of fill_ptr fill_ptr 0x5555_5555)

abbrev pub new_text : ℕ → Cell
new_text n = text (replicate n 0x55)

abbrev as_queue : Cell → Cmd Cell Queue
as_queue (queue s) = pure s
as_queue _ = λ _. fault

abbrev as_ele : Cell → Cmd Cell Ele
as_ele (ele e) = pure e
as_ele _ = λ _. fault

abbrev as_text : Cell → Cmd Cell (List ℕ)
as_text (text t) = pure t
as_text _ = λ _. fault

abbrev pub load_queue : Ptr → Cmd Cell Queue
load_queue p = load p >>= as_queue

abbrev pub load_ele : Ptr → Cmd Cell Ele
load_ele p = load p >>= as_ele

abbrev pub load_text : Ptr → Cmd Cell (List ℕ)
load_text p = load p >>= as_text

-- `p->head = x` and the like: only the named field changes.
abbrev pub update_queue : Ptr → (Queue → Queue) → Cmd Cell (Unit {0})
update_queue p f = load_queue p >>= λ s. store p (queue (f s))

abbrev pub update_ele : Ptr → (Ele → Ele) → Cmd Cell (Unit {0})
update_ele p f = load_ele p >>= λ e. store p (ele (f e))

abbrev pub set_head : Ptr → Ptr → Cmd Cell (Unit {0})
set_head q x = update_queue q (λ s. record s { head = x })

abbrev pub set_tail : Ptr → Ptr → Cmd Cell (Unit {0})
set_tail q x = update_queue q (λ s. record s { tail = x })

abbrev pub set_size : Ptr → (ℕ → ℕ) → Cmd Cell (Unit {0})
set_size q f = update_queue q (λ s. record s { size = f s.size })

abbrev pub set_value : Ptr → Ptr → Cmd Cell (Unit {0})
set_value p x = update_ele p (λ e. record e { value = x })

abbrev pub set_next : Ptr → Ptr → Cmd Cell (Unit {0})
set_next p x = update_ele p (λ e. record e { next = x })

-- strcpy of the string `s` and its terminator into the array at `p`; past its end it is a fault.
abbrev pub strcpy : Ptr → List ℕ → Cmd Cell (Unit {0})
strcpy p s = do
  t ← load_text p
  if leb (length s + 1) (length t) then store p (text (s ++ (0 ∷ drop (length s + 1) t))) else λ _.
      fault

pub q_new : Cmd Cell Ptr
q_new = do
  q ← malloc new_queue
  if q == null then pure null else do set_head q null; set_tail q null; set_size q (λ _. 0); pure q

free_loop : ℕ → Ptr → Cmd Cell (Unit {0})
free_loop zero curr = λ _. out_of_fuel
free_loop (suc k) curr =
    if curr == null
    then pure tt
    else do e ← load_ele curr; free e.value; free curr; free_loop k e.next

pub q_free : ℕ → Ptr → Cmd Cell (Unit {0})
unfolding free_loop
q_free k q = if q == null then pure tt else do s ← load_queue q; free_loop k s.head; free q

-- `s` is the string without its terminator.
pub q_insert_head : Ptr → List ℕ → Cmd Cell Bool
q_insert_head q s = if q == null then pure false else do
  n ← malloc new_ele
  if n == null then pure false else do
    v ← malloc (new_text (length s + 1))
    set_value n v
    if v == null then (do free n; pure false) else do
      strcpy v s
      old ← load_queue q
      set_next n old.head
      set_head q n
      if old.tail == null then set_tail q n else pure tt
      set_size q (λ z. (z + 1) % int_mod)
      pure true

pub q_insert_tail : Ptr → List ℕ → Cmd Cell Bool
q_insert_tail q s = if q == null then pure false else do
  n ← malloc new_ele
  if n == null then pure false else do
    v ← malloc (new_text (length s + 1))
    set_value n v
    if v == null then (do free n; pure false) else do
      strcpy v s
      set_next n null
      old ← load_queue q
      if old.tail == null
          then (do set_head q n; set_tail q n)
          else (do set_next old.tail n; set_tail q n)
      set_size q (λ z. (z + 1) % int_mod)
      pure true

-- The unsigned bufsize - 1.
abbrev pub pred_size : ℕ → ℕ
pred_size n = (n + 2 ^ 64 - 1) % 2 ^ 64

-- What an access past the end of the caller's buffer makes of a run.
abbrev in_bounds : Option (List ℕ) → Cmd Cell (List ℕ)
in_bounds none = λ _. fault
in_bounds (some t) = pure t

-- The buffer of the caller lies outside the heap: `none` is a NULL pointer, and the result is what
-- the buffer holds afterwards.
abbrev remove_into : Ptr → Queue → Option (List ℕ) → ℕ → Cmd Cell (Bool × Option (List ℕ))
remove_into q s none bufsize = pure (false, none)
remove_into q s (some buf) bufsize = do
  e ← load_ele s.head
  set_head q e.next
  t ← load_text e.value
  out ← in_bounds (strncpy buf t (pred_size bufsize))
  out ← in_bounds (set_byte out (pred_size bufsize) 0)
  free e.value
  free s.head
  set_size q (λ z. (z + int_mod - 1) % int_mod)
  pure (true, some out)

pub q_remove_head : Ptr → Option (List ℕ) → ℕ → Cmd Cell (Bool × Option (List ℕ))
q_remove_head q sp bufsize = if q == null then pure (false, sp) else do
  s ← load_queue q
  if s.head == null then pure (false, sp) else remove_into q s sp bufsize

pub q_size : Ptr → Cmd Cell ℕ
q_size q =
    if q == null
    then pure 0
    else do s ← load_queue q; if s.head == null then pure 0 else pure s.size

reverse_loop : ℕ → (prev curr : Ptr) → Cmd Cell Ptr
reverse_loop zero prev curr = λ _. out_of_fuel
reverse_loop (suc k) prev curr =
    if curr == null
    then pure prev
    else do e ← load_ele curr; set_next curr prev; reverse_loop k curr e.next

pub q_reverse : ℕ → Ptr → Cmd Cell (Unit {0})
unfolding reverse_loop
q_reverse k q = if q == null then pure tt else do
  s ← load_queue q
  if s.head == null || s.head == s.tail
      then pure tt
      else do set_tail q s.head; prev ← reverse_loop k null s.head; set_head q prev
