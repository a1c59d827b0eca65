-- ===== src/Harness/Release.antt =====
-- test_free takes exactly one block out of the list.
use cohere_technology_skillb.Prelude.{
  ℕ, ◌+◌, ◌^◌, ◌<◌, ◌≤◌, ◌≡◌, ◌≢◌, sym, ◌∙◌, true, some, none, List, ◌∷◌, ◌++◌, arith, ◌==◌,
  Bool-cases, inl, inr, length, length-append, if◌then◌else◌,
}
use mathlib.Core.Path.{subst}
use cohere_technology_skillb.Memory.{Ptr, null, ok, pure, write}
use cohere_technology_skillb.Memory.Rules
use cohere_technology_skillb.Memory.Rules.{Points, Returns, returns}
use cohere_technology_skillb.Harness.{
  Block, BlockHeap, Harness, whole, overwritten, header_size, find_loop, test_free,
}
use cohere_technology_skillb.Harness.Links
use cohere_technology_skillb.Harness.Links.{
  ◌∈◌, ◌∉◌, has, has-append, Links, IsDistinct, IsHarness, last_at, is_empty, Parts, Parts_lem,
  Split_lem, last-cases, first-cases,
}
use cohere_technology_skillb.Harness.Free.{
  Neighbour, Unlinked, find_loop-mem, unlink-Unlinked, test_free-unlink,
}

-- The heap in which the marks of the block at `b` have been overwritten.
abbrev spoiled : BlockHeap → Ptr → Block → BlockHeap
spoiled h b e = record h { cell = write h.cell b (some e) }

-- A block `b` between the chains `xs` and `ys`.
module _ {h : BlockHeap} {first b n : Ptr} {xs ys : List Ptr} (e : Block) (b0 : b ≢ null)
    (parts : Parts xs b ys) (front : Links h b null first xs) (back : Links h null b n ys) where
  abbrev before : Ptr
  before = last_at null xs

  front_spoiled : Links (spoiled h b e) b null first xs
  unfolding write
  front_spoiled = Links.Links-frame front λ a i. ground (arith, parts.b-left)

  back_spoiled : Links (spoiled h b e) null b n ys
  unfolding write
  back_spoiled = Links.Links-frame back λ a i. ground (arith, parts.b-right)

  front-Neighbour : Neighbour (spoiled h b e) before
  front-Neighbour = elim (last-cases null xs) [
    | inl (empty, is) ↦ inl is
    | inr (full, mem) ↦ inr (Links.mem-holds before front_spoiled mem)
  ]

  back-Neighbour : Neighbour (spoiled h b e) n
  back-Neighbour = elim (first-cases back) [
    | inl is ↦ inl is
    | inr mem ↦ inr (Links.mem-holds n back_spoiled mem)
  ]

  before-ne : before ≢ b
  before-ne q = elim (last-cases null xs) [
    | inl (empty, is) ↦ b0 (sym q ∙ is)
    | inr (full, mem) ↦ cc (parts.b-left, q, mem)
  ]

  behind-ne : n ≢ b
  behind-ne q = elim (first-cases back) [
    | inl is ↦ b0 (sym q ∙ is)
    | inr mem ↦ cc (parts.b-right, q, mem)
  ]

  -- A block before is none behind.
  not_behind : (a : Ptr) → a ∈ xs → a ≡ n → n ≡ null
  not_behind a i q = elim (first-cases back) [
    | inl is ↦ is
    | inr mem ↦ absurd (cc (parts.apart a i, q, mem))
  ]

  not_before : (a : Ptr) → a ∈ ys → a ≡ before → before ≡ null
  not_before a i q = elim (last-cases null xs) [
    | inl (empty, is) ↦ is
    | inr (full, mem) ↦ absurd (cc (parts.apart before mem, q, i))
  ]

  neighbours_apart : before ≡ n → n ≡ null
  neighbours_apart q = elim (last-cases null xs) [
    | inl (empty, is) ↦ sym q ∙ is
    | inr (full, mem) ↦ not_behind before mem q
  ]

  -- Once the neighbours have been linked to one another, the chains are one.
  relinked :
      {g : BlockHeap}
      → IsDistinct (xs ++ ys)
      → Unlinked (spoiled h b e) g b before n
      → Links g null null (if before == null then n else first) (xs ++ ys)
  relinked {g} joined u =
      let start : (if is_empty xs then n else first) ≡ (if before == null then n else first) =
        elim (last-cases null xs) [
          | inl (empty, is) ↦ ground (arith, empty, is)
          | inr (full, mem) ↦
              let (e', p) = Links.mem-holds before front_spoiled mem in
              ground (arith, full, p.ne_null)
        ] in
      let left =
        Links.Links-before {g = g} n front_spoiled parts.left
          (λ a i ne. u.same a (λ q. cc (parts.b-left, q, i)) (λ q. absurd (ne q)) (not_behind a i))
          (λ e' i h'. u.to_next e' (Links.mem-holds before front_spoiled i).1.ne_null h') in
      let right =
        Links.Links-behind {g = g} before back_spoiled parts.right
          (λ a i ne. u.same a (λ q. cc (parts.b-right, q, i)) (not_before a i) (λ q. absurd (ne q)))
          (λ e' i h'. u.to_prev e' (Links.mem-holds n back_spoiled i).1.ne_null h') in
      subst (λ p. Links g null null p (xs ++ ys)) start (Links.Links-append left right)

  outside :
      {g : BlockHeap}
      → Unlinked (spoiled h b e) g b before n
      → (a : Ptr) → a ∉ (xs ++ (b ∷ ys))
      → g.cell a ≡ h.cell a
  unfolding write
  outside {g} u a out =
      let app = has-append a xs (b ∷ ys) in
      let ab : a ≢ b = λ q. ground (arith, app) in
      let no_x : a ∉ xs = ground (arith, app) in
      let no_y : a ∉ ys = ground (arith, app) in
      let kept =
        u.same a ab
          (λ q. elim (last-cases null xs) [
            | inl (empty, is) ↦ is
            | inr (full, mem) ↦ cc (no_x, q, mem)
          ])
          (λ q. elim (first-cases back) [ inl is ↦ is | inr mem ↦ cc (no_y, q, mem) ]) in
      ground (arith, kept, ab)

-- The state and the heap after a block among those allocated has been freed.
pub record Freed (h g : BlockHeap) (st st' : Harness) (xs : List Ptr) (b : Ptr) (ys : List Ptr)
    : Type 0 where
  pub harness : IsHarness g st' (xs ++ ys)
  pub no_error : st'.error_occurred ≡ st.error_occurred
  pub gone : g.cell b ≡ none
  pub same : (a : Ptr) → a ∉ (xs ++ (b ∷ ys)) → g.cell a ≡ h.cell a
  pub supply : g.supply ≡ h.supply

-- test_free of the payload of any block in the list frees exactly this block: the others stay
-- linked in their order, the count is one less and no error is recorded, and nothing outside the
-- list's blocks has changed. The search runs within fuel for the length of the list.
pub test_free-Freed :
    {h : BlockHeap} {st : Harness} (k : ℕ) (xs : List Ptr) (b : Ptr) (ys : List Ptr)
    → IsHarness h st (xs ++ (b ∷ ys))
    → b + header_size < 2 ^ 64
    → length (xs ++ (b ∷ ys)) ≤ k
    → length (xs ++ (b ∷ ys)) < 2 ^ 64
    → Returns (λ st' g. Freed h g st st' xs b ys) (test_free k (b + header_size) st h)
unfolding write
test_free-Freed {h} {st} k xs b ys is small fuel count =
    let s = Split_lem xs ys is.links in
    let parts = Parts_lem xs b ys is.distinct in
    let b0 = s.block.ne_null in
    let e = overwritten (whole s.n (last_at null xs) s.size s.bytes) in
    let mem : b ∈ (xs ++ (b ∷ ys)) = ground (arith, has-append b xs (b ∷ ys)) in
    let search : (if st.cautious_mode then find_loop k st.allocated b else pure true) h
        ≡ ok true h =
      elim (Bool-cases st.cautious_mode) [
        | inl c ↦ rw c (find_loop-mem k b is.links mem fuel)
        | inr c ↦ rw c
      ] in
    let there : Points (spoiled h b e) b e = record { ne_null = b0; holds = ground arith } in
    let run =
      unlink-Unlinked (spoiled h b e) b (last_at null xs) s.n there
        (
          before-ne e b0 parts s.front s.back,
          (behind-ne e b0 parts s.front s.back, neighbours_apart e b0 parts s.front s.back),
        )
        st.allocated (front-Neighbour e b0 parts s.front s.back)
        (back-Neighbour e b0 parts s.front s.back) in
    rw
      (test_free-unlink h st b (whole s.n (last_at null xs) s.size s.bytes) k is.enabled small
        s.block search)
      (Rules.bind run λ first g (eq, u). returns (record {
        harness = record {
          links = rw eq (relinked e b0 parts s.front s.back parts.joined u);
          distinct = parts.joined;
          count = omega (arith, is.count, count, length-append xs (b ∷ ys), length-append xs ys);
          enabled = is.enabled;
        };
        no_error = ground arith;
        gone = u.gone;
        same = λ a out. outside e b0 parts s.front s.back u a out;
        supply = u.supply;
      }))
