-- ===== src/Steque.antt =====
-- FUND-120/4_ClientServerLab/mtgf/steque.c and steque.h: a queue with a stack's push, as a singly
-- linked list with a pointer to its last node. The steque_t itself belongs to the caller, so an
-- operation returns the new one. malloc is not checked: a write through its NULL is a fault.
pub mod Chain
pub mod Operations
pub mod Pop
pub mod Destroy
pub mod Deque
pub mod Refine
mod Tests
use cohere_technology_skillb.Prelude.{ℕ, zero, suc, ◌+◌, ◌-◌, ◌%◌, ◌^◌, Bool, ◌==◌, if◌then◌else◌}
use cohere_technology_skillb.Memory.{
  Ptr, null, fill_ptr, Heap, exit, out_of_fuel, Cmd, pure, ◌>>=◌, ◌>>◌, load, store, malloc, free,
}

-- steque_node_t; an item is a pointer.
pub record Node : Type 0 where
  pub item : Ptr
  pub next : Ptr

abbrev pub node : Ptr → Ptr → Node
node i n = record { item = i; next = n }

-- steque_t; `size` is the field N, the bit pattern of an int.
pub record Steque : Type 0 where
  pub front : Ptr
  pub back : Ptr
  pub size : ℕ

abbrev pub steque : Ptr → Ptr → ℕ → Steque
steque f b n = record { front = f; back = b; size = n }

abbrev pub NodeHeap : Type 0
NodeHeap = Heap Node

abbrev int_mod : ℕ
int_mod = 2 ^ 32

abbrev pub set_item : Ptr → Ptr → Cmd Node (Unit {0})
set_item p i = load p >>= λ e. store p (record e { item = i })

abbrev pub set_next : Ptr → Ptr → Cmd Node (Unit {0})
set_next p n = load p >>= λ e. store p (record e { next = n })

pub steque_init : Steque
steque_init = steque null null 0

pub steque_enqueue : Steque → Ptr → Cmd Node Steque
steque_enqueue this item = do
  p ← malloc (node fill_ptr fill_ptr)
  set_item p item
  set_next p null
  this ←
      if this.back == null
      then pure (record this { front = p })
      else (do set_next this.back p; pure this)
  pure (record this { back = p; size = (this.size + 1) % int_mod })

pub steque_push : Steque → Ptr → Cmd Node Steque
steque_push this item = do
  p ← malloc (node fill_ptr fill_ptr)
  set_item p item
  set_next p this.front
  let back = if this.back == null then p else this.back
  pure (record this { front = p; back = back; size = (this.size + 1) % int_mod })

pub steque_size : Steque → ℕ
steque_size this = this.size

pub steque_isempty : Steque → Bool
steque_isempty this = this.size == 0

-- The process exits on an empty steque.
pub steque_pop : Steque → Cmd Node (Ptr × Steque)
steque_pop this = if this.front == null then (λ _. exit) else do
  e ← load this.front
  let back = if e.next == null then null else this.back
  free this.front
  pure (e.item, steque e.next back ((this.size + int_mod - 1) % int_mod))

pub steque_cycle : Steque → Cmd Node Steque
steque_cycle this = if this.back == null then pure this else do
  set_next this.back this.front
  e ← load this.front
  set_next this.front null
  pure (record this { front = e.next; back = this.front })

pub steque_front : Steque → Cmd Node Ptr
steque_front this = if this.front == null then (λ _. exit) else do e ← load this.front; pure e.item

pub steque_destroy : ℕ → Steque → Cmd Node Steque
unfolding steque_isempty steque_pop
steque_destroy zero this = λ _. out_of_fuel
steque_destroy (suc k) this =
    if steque_isempty this then pure this else do (_, rest) ← steque_pop this; steque_destroy k rest
