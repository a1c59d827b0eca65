-- ===== src/Content.antt =====
-- FUND-120/4_ClientServerLab/mtgf/content.c: the table from keys to open files, and its binary
-- search. Strings are lists of bytes without the terminator. The lines that fgets delivers are an
-- argument; open and qsort are parameters.
pub mod Strcmp
pub mod Search
pub mod Load
mod Tests
use cohere_technology_skillb.Prelude.{
  ℕ, zero, suc, ◌+◌, ◌-◌, ◌*◌, ◌/◌, ◌^◌, ◌<◌, Bool, true, false, not, ◌||◌, Option, none, some,
  List, [], ◌∷◌, ◌++◌, ◌==◌, ltb, if◌then◌else◌, length, get_elem?,
}
use cohere_technology_skillb.Queue.Strings.{c_string}
use Strcmp.{strcmp, lt, eq, gt}

-- item_t
pub record Item : Type 0 where
  pub fildes : ℕ
  pub key : List ℕ

abbrev pub item : List ℕ → ℕ → Item
item k fd = record { fildes = fd; key = k }

-- The offset of each open file.
abbrev pub Offsets : Type 0
Offsets = ℕ → ℕ

abbrev pub rewind : ℕ → Offsets → Offsets
rewind fd o a = if a == fd then 0 else o a

pub data Lookup : Type 0 where
  found : ℕ → Offsets → Lookup
  missing : Offsets → Lookup
  fault : Lookup
  out_of_fuel : Lookup

-- One round at the item in the middle.
-- `end` is hi + 1, since hi may be -1: lo <= hi is lo < end, and hi = mid - 1 is end = mid.
get_step : (List ℕ → ℕ → ℕ → Offsets → Lookup) → List ℕ → ℕ → ℕ → ℕ → Offsets → Option Item → Lookup
get_step again key lo end mid o none = fault
get_step again key lo end mid o (some it) = elim (strcmp key it.key) [
  | lt ↦ again key lo mid o
  | gt ↦ again key (mid + 1) end o
  | eq ↦ found it.fildes (rewind it.fildes o)
]

get_loop : ℕ → List Item → List ℕ → (lo end : ℕ) → Offsets → Lookup
get_loop zero items key lo end o = out_of_fuel
get_loop (suc k) items key lo end o =
    let mid = lo + (end - 1 - lo) / 2 in
    let step = get_step (get_loop k items) key lo end mid o (get_elem? items mid) in
    if ltb lo end then step else missing o

-- The fuel is more than the number of items, which the loop halves.
unfoldable pub content_get : List Item → List ℕ → Offsets → Lookup
unfolding get_loop get_step
content_get items key o = get_loop (suc (length items)) items key 0 (length items) o

-- strsep with the delimiters space and tab: the first token, and what follows its delimiter.
pub strsep : List ℕ → List ℕ × Option (List ℕ)
strsep [] = ([], none)
strsep (c ∷ s) =
    let (token, rest) = strsep s in if c == b' ' || c == 9 then ([], some s) else (c ∷ token, rest)

pub drop_last : List ℕ → List ℕ
drop_last [] = []
drop_last (c ∷ []) = []
drop_last (c ∷ d ∷ s) = c ∷ drop_last (d ∷ s)

-- The key and the path of a line up to its first NUL, whose last byte is taken off whatever it is;
-- a path that is not there is a NULL pointer.
pub parse_line : List ℕ → List ℕ × Option (List ℕ)
unfolding strsep drop_last c_string
parse_line line =
    let (key, rest) = strsep (drop_last (c_string line)) in
    (key, elim rest [ none ↦ none | some r ↦ some (strsep r).0 ])

pub data Table : Type 0 where
  loaded : List Item → Table
  exit_failure : Table
  overrun : Table

-- `open_file n` is the n-th call of open(path, O_RDONLY), from 0 on: a descriptor, or `none` for a
-- negative result. malloc and realloc are taken to succeed.
module _ (open_file : ℕ → Option (List ℕ) → Option ℕ) where
  -- The loop over the lines, with the items read so far in an array of `capacity` items. A line that
  -- is empty up to its first NUL is a write before the key, and a capacity of 2 ^ 31 overflows.
  pub init_loop : List (List ℕ) → ℕ → List Item → Table
  unfolding c_string
  init_loop [] capacity items = loaded items
  init_loop (l ∷ lines) capacity items = elim (c_string l) [
    | [] ↦ overrun
    | c ∷ s ↦
        let (key, path) = parse_line l in
        elim (open_file (length items) path) [
          | none ↦ if ltb (length items) capacity then exit_failure else overrun
          | some fd ↦
              let next = items ++ (item key fd ∷ []) in
              if not (ltb (length items) capacity)
              then overrun
              else (elim (suc (length items) == capacity) [
                | false ↦ init_loop lines capacity next
                | true ↦ elim (ltb (capacity * 2) (2 ^ 31)) [
                  | true ↦ init_loop lines (capacity * 2) next
                  | false ↦ overrun
                ]
              ])
        ]
  ]

  -- `lines` is what fgets delivers, `none` a file that cannot be opened.
  pub content_init : (List Item → List Item) → Option (List (List ℕ)) → Table
  unfolding init_loop
  content_init qsort none = exit_failure
  content_init qsort (some lines) = elim (init_loop lines 16 []) [
    | loaded items ↦ loaded (qsort items)
    | exit_failure ↦ exit_failure
    | overrun ↦ overrun
  ]

-- The descriptors that content_destroy closes, in order.
pub content_destroy : List Item → List ℕ
content_destroy [] = []
content_destroy (it ∷ items) = it.fildes ∷ content_destroy items
