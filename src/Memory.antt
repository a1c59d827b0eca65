-- ===== src/Memory.antt =====
-- The memory of a C program as the models see it: objects at addresses, the addresses that later
-- calls of malloc return, and commands that read and write them. `fault` is undefined behaviour,
-- such as a read through NULL or through a freed address; `exit` ends the process.
pub mod Rules
use cohere_technology_skillb.Prelude.{
  ℕ, suc, ◌+◌, ◌-◌, ◌≡◌, Option, none, some, List, [], ◌∷◌, ◌==◌, if◌then◌else◌,
}

abbrev pub Ptr : Type 0
Ptr = ℕ

abbrev pub null : Ptr
null = 0

-- What the harness fills a new block with, read as a pointer.
abbrev pub fill_ptr : Ptr
fill_ptr = 0x5555_5555_5555_5555

-- `C` is the type of the objects that the program allocates.
pub record Heap (C : Type 0) : Type 0 where
  pub cell : Ptr → Option C
  pub supply : List Ptr
  pub live : ℕ

module _ {C : Type 0} where
  unfoldable pub write : (Ptr → Option C) → Ptr → Option C → Ptr → Option C
  write f p c a = if a == p then c else f a

pub data Run (C A : Type 0) : Type 0 where
  ok : A → Heap C → Run C A
  fault : Run C A
  exit : Run C A
  out_of_fuel : Run C A

abbrev pub Cmd : Type 0 → Type 0 → Type 0
Cmd C A = Heap C → Run C A

module _ {C : Type 0} where
  abbrev pub pure : {A : Type 0} → A → Cmd C A
  pure = ok

  module _ {A B : Type 0} where
    abbrev pub and_then : Run C A → (A → Cmd C B) → Run C B
    and_then (ok a h) k = k a h
    and_then fault k = fault
    and_then exit k = exit
    and_then out_of_fuel k = out_of_fuel

    infixl 5 ◌>>=◌ ◌>>◌
    abbrev pub ◌>>=◌ : Cmd C A → (A → Cmd C B) → Cmd C B
    m >>= k = λ h. and_then (m h) k

    abbrev pub ◌>>◌ : Cmd C A → Cmd C B → Cmd C B
    m >> n = m >>= λ _. n

  -- `*p`
  unfoldable pub load : Ptr → Cmd C C
  load p h = if p == null then fault else elim (h.cell p) [ none ↦ fault | some c ↦ ok c h ]

  -- `*p = c`, where an object stands.
  unfoldable pub store : Ptr → C → Cmd C (Unit {0})
  unfolding write load
  store p c = load p >> λ h. ok tt (record h { cell = write h.cell p (some c) })

  -- The object stands at the next address of the supply; NULL, or the end of the supply, is a
  -- failed allocation. `c` is the content of the new block.
  unfoldable pub malloc : C → Cmd C Ptr
  unfolding write
  malloc c h = elim h.supply [
    | [] ↦ ok null h
    | p ∷ rest ↦
        if p == null
        then ok null (record h { supply = rest })
        else ok p (record h { cell = write h.cell p (some c); supply = rest; live = h.live + 1 })
  ]

  -- A free of NULL or of a freed address is a fault: the harness reports both as errors.
  unfoldable pub free : Ptr → Cmd C (Unit {0})
  unfolding write load
  free p = load p >> λ h. ok tt (record h { cell = write h.cell p none; live = h.live - 1 })
