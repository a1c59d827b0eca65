-- ===== src/Queue/Segment.antt =====
-- What the pointers of queue.c stand for: chains of list elements with their strings.
use cohere_technology_skillb.Prelude.{
  ℕ, ◌≡◌, ◌≢◌, refl, Bool, true, false, ◌||◌, none, some, List, [], ◌∷◌, ◌++◌, map, arith, ◌==◌,
  length, if◌then◌else◌,
}
use cohere_technology_skillb.Memory.{Ptr, null}
use cohere_technology_skillb.Memory.Rules.{Points}
use cohere_technology_skillb.Queue.Strings.{NoNul}
use cohere_technology_skillb.Queue.{Cell, ele, text, queue, ele_of, Queue, QueueHeap}

-- An element of the queue: its address, the address of its string, and the string.
pub record Entry : Type 0 where
  pub at : Ptr
  pub str : Ptr
  pub bytes : List ℕ

abbrev pub entry : Ptr → Ptr → List ℕ → Entry
entry p v s = record { at = p; str = v; bytes = s }

abbrev pub Entries : Type 0
Entries = List Entry

-- The strings that the entries hold: the abstract queue.
abbrev pub strings : Entries → List (List ℕ)
strings = map (λ e. e.bytes)

-- Whether `a` is the address of an element or of a string.
abbrev pub has : Ptr → Entries → Bool
has a [] = false
has a (e ∷ xs) = (a == e.at) || (a == e.str) || has a xs

infix 40 ◌∈◌ ◌∉◌
abbrev pub ◌∈◌ : Ptr → Entries → Type 0
a ∈ xs = has a xs ≡ true

abbrev pub ◌∉◌ : Ptr → Entries → Type 0
a ∉ xs = has a xs ≡ false

-- `g` differs from `h` at most at the addresses of `xs`.
abbrev pub SameOutside : Entries → QueueHeap → QueueHeap → Type 0
SameOutside xs h g = (a : Ptr) → a ∉ xs → g.cell a ≡ h.cell a

abbrev pub terminated : List ℕ → Cell
terminated s = text (s ++ (0 ∷ []))

-- From `p` the `next` pointers lead through the entries `xs` to `stop`; no address occurs twice.
pub data Seg (h : QueueHeap) (stop : Ptr) : Ptr → Entries → Type 0 where
  nil : Seg h stop stop []
  cons :
      {p v n : Ptr} {s : List ℕ} {xs : Entries}
      → Points h p (ele (ele_of v n))
      → Points h v (terminated s)
      → NoNul s
      → p ∉ xs
      → v ∉ xs
      → Seg h stop n xs
      → Seg h stop p (entry p v s ∷ xs)

-- The last element of the chain; `d` where there is none.
abbrev pub last_at : Ptr → Entries → Ptr
last_at d [] = d
last_at d (e ∷ xs) = last_at e.at xs

abbrev pub nonempty : Entries → Bool
nonempty [] = false
nonempty (e ∷ xs) = true

-- The queue at `q` has the fields `s` and holds the entries `xs`.
pub record IsQueue (h : QueueHeap) (q : Ptr) (s : Queue) (xs : Entries) : Type 0 where
  pub object : Points h q (queue s)
  pub chain : Seg h null s.head xs
  pub last : s.tail ≡ last_at null xs
  pub count : s.size ≡ length xs

has-append : (a : Ptr) (xs ys : Entries) → has a (xs ++ ys) ≡ (has a xs || has a ys)
has-append a [] ys = refl
has-append a (x ∷ xs) ys = ground (arith, has-append a xs ys)

pub last-append : (d : Ptr) (xs : Entries) (e : Entry) → last_at d (xs ++ (e ∷ [])) ≡ e.at
last-append d [] e = refl
last-append d (x ∷ xs) e = last-append x.at xs e

module _ {h : QueueHeap} {stop : Ptr} where
  pub eq_of_nil : {p : Ptr} → Seg h stop p [] → p ≡ stop
  eq_of_nil nil = refl

  -- A chain survives any change that spares its own addresses.
  pub frame :
      {g : QueueHeap} {p : Ptr} {xs : Entries}
      → Seg h stop p xs
      → ((a : Ptr) → a ∈ xs → g.cell a ≡ h.cell a)
      → Seg g stop p xs
  frame nil same = nil
  frame (cons {p} {v} e t z out out' s) same =
      cons (ground (arith, same p)) (ground (arith, same v)) z out out'
        (frame s λ a i. same a (ground arith))

  -- An address that holds no object, or the queue itself, is none of the chain.
  pub not-mem_of_none :
      {p : Ptr} {xs : Entries} (a : Ptr) → Seg h stop p xs → h.cell a ≡ none → a ∉ xs
  not-mem_of_none a nil unused = refl
  not-mem_of_none a (cons e t z out out' s) unused = ground (arith, not-mem_of_none a s unused)

  pub not-mem_of_queue :
      {p : Ptr} {xs : Entries} {r : Queue} (a : Ptr)
      → Seg h stop p xs
      → h.cell a ≡ some (queue r)
      → a ∉ xs
  not-mem_of_queue a nil e' = refl
  not-mem_of_queue a (cons e t z out out' s) e' = ground (arith, not-mem_of_queue a s e')

module _ {h : QueueHeap} {stop : Ptr} where
  pub last-ne_null :
      {p : Ptr} {xs : Entries} (d : Ptr) → Seg h stop p xs → d ≢ null → last_at d xs ≢ null
  last-ne_null d nil ne = ne
  last-ne_null d (cons {p} e t z out out' s) ne = last-ne_null p s e.ne_null

  -- The tail pointer that an insertion at the head leaves.
  pub last-cons :
      {p : Ptr} {xs : Entries} (t n : Ptr)
      → Seg h stop p xs
      → t ≡ last_at null xs
      → (if t == null then n else t) ≡ last_at n xs
  last-cons t n nil e = ground arith
  last-cons t n (cons {p} at st z out out' s) e = ground (arith, last-ne_null p s at.ne_null)

  pub last-mem :
      {p : Ptr} {xs : Entries} (d : Ptr) → Seg h stop p xs → nonempty xs ≡ true → last_at d xs ∈ xs
  last-mem d nil ne = cc
  last-mem d (cons {p} e t z out out' nil) ne = ground arith
  last-mem d (cons {p} e t z out out' (cons e' t' z' o o' s)) ne =
      ground (arith, last-mem p (cons e' t' z' o o' s) refl)

  -- The last element links to where the chain stops.
  pub last-link :
      {p : Ptr} {xs : Entries} (d : Ptr)
      → Seg h stop p xs
      → nonempty xs ≡ true
      → (w : Ptr) × Points h (last_at d xs) (ele (ele_of w stop))
  last-link d nil ne = absurd (cc)
  last-link d (cons {v} e t z out out' nil) ne = (v, e)
  last-link d (cons {p} e t z out out' (cons e' t' z' o o' s)) ne =
      last-link p (cons e' t' z' o o' s) refl

-- The heap `g` in which the last element of a chain of `h` has been linked to `n`.
pub record Relinked (h g : QueueHeap) (xs : Entries) (last w n : Ptr) : Type 0 where
  pub from : h.cell last ≡ some (ele (ele_of w null))
  pub to : g.cell last ≡ some (ele (ele_of w n))
  pub same : (a : Ptr) → a ∈ xs → a ≢ last → g.cell a ≡ h.cell a

module _ {h g : QueueHeap} {n stop : Ptr} {ys : Entries} (tail : Seg g stop n ys) where
  -- A chain grows by what its last element is linked to.
  pub splice :
      {p : Ptr} {xs : Entries} (d w : Ptr)
      → Seg h null p xs
      → nonempty xs ≡ true
      → Relinked h g xs (last_at d xs) w n
      → ((a : Ptr) → a ∈ xs → a ∉ ys)
      → Seg g stop p (xs ++ ys)
  splice d w nil ne re apart = absurd (cc)
  splice d w (cons {p} {v} e t z out out' nil) ne re apart =
      cons (record { ne_null = e.ne_null; holds = ground (arith, re.to, re.from, e.holds) })
        (record { ne_null = t.ne_null; holds = ground (arith, re.same v, t.holds, e.holds) }) z
        (apart p (ground arith)) (apart v (ground arith)) tail
  splice d w (cons {p} {v} e t z out out' (cons {p = p'} {v = v'} {s = s'} {xs} e' t' z' o o' r)) ne
        re apart =
      let mem = last-mem p (cons e' t' z' o o' r) refl in
      cons (record { ne_null = e.ne_null; holds = ground (arith, re.same p, e.holds) })
        (record { ne_null = t.ne_null; holds = ground (arith, re.same v, t.holds) }) z
        (rw (has-append p (entry p' v' s' ∷ xs) ys, out) (apart p (ground arith)))
        (rw (has-append v (entry p' v' s' ∷ xs) ys, out') (apart v (ground arith)))
        (splice p w (cons e' t' z' o o' r) refl
          (record { from = re.from; to = re.to; same = λ a i. re.same a (ground arith) })
          λ a i. apart a (ground arith))
