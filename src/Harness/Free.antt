-- ===== src/Harness/Free.antt =====
-- test_free of a block that is allocated.
use cohere_technology_skillb.Prelude.{
  ℕ, zero, suc, ◌+◌, ◌-◌, ◌%◌, ◌^◌, ◌<◌, ◌≤◌, ◌≡◌, ◌≢◌, refl, sym, Bool, true, false, not, ◌||◌,
  ◌&&◌, some, none, List, arith, ◌==◌, ==-ne, Bool-cases, ◌⊎◌, inl, inr, length, if◌then◌else◌,
}
use cohere_technology_skillb.Memory.{Ptr, null, ok, and_then, pure, write, load, store, free}
use cohere_technology_skillb.Memory.Rules
use cohere_technology_skillb.Memory.Rules.{Points, Returns, returns}
use cohere_technology_skillb.Harness.{
  Block, BlockHeap, Harness, overwritten, header_of, header_size, magicheader, magicfooter,
  find_loop, unlink, test_free,
}
use cohere_technology_skillb.Harness.Links.{◌∈◌, Links, nil, cons}

pub find_loop-mem :
    {h : BlockHeap} {before p : Ptr} {bs : List Ptr} (k : ℕ) (b : Ptr)
    → Links h null before p bs
    → b ∈ bs
    → length bs ≤ k
    → find_loop k p b h ≡ ok true h
unfolding find_loop
find_loop-mem k b (nil e) i le = absurd (cc)
find_loop-mem zero b (cons e l) i le = absurd (omega arith)
find_loop-mem {h} (suc k) b (cons {before} {p} {n} e l) i le = elim (Bool-cases (p == b)) [
  | inl is ↦ rw (Rules.not_null e) (rw (Rules.load-ok e) (rw is))
  | inr other ↦
      let further = find_loop-mem k b l (ground arith) (omega arith) in
      rw (Rules.not_null e) (rw (Rules.load-ok e) (rw other further))
]

-- A neighbour of the block: none, or a block.
abbrev pub Neighbour : BlockHeap → Ptr → Type 0
Neighbour h a = (a ≡ null) ⊎ ((e : Block) × Points h a e)

-- The block `b` is gone, its neighbours are linked to one another, and the rest is as before.
pub record Unlinked (h g : BlockHeap) (b before n : Ptr) : Type 0 where
  pub gone : g.cell b ≡ none
  pub to_next :
      (e : Block)
      → before ≢ null
      → h.cell before ≡ some e
      → g.cell before ≡ some (record e { next = n })
  pub to_prev :
      (e : Block) → n ≢ null → h.cell n ≡ some e → g.cell n ≡ some (record e { prev = before })
  pub same :
      (a : Ptr) → a ≢ b → (a ≡ before → before ≡ null) → (a ≡ n → n ≡ null) → g.cell a ≡ h.cell a
  pub supply : g.supply ≡ h.supply

module _ (h : BlockHeap) (b before n : Ptr) {d : Block} (block : Points h b d)
    (apart : (before ≢ b) × ((n ≢ b) × (before ≡ n → n ≡ null))) where
  pub unlink-Unlinked :
      (first : Ptr)
      → Neighbour h before
      → Neighbour h n
      → Returns
          (λ first' g. (first' ≡ (if before == null then n else first)) × Unlinked h g b before n)
          (unlink b before n first h)
  unfolding unlink load store free write
  unlink-Unlinked first (inl e) (inl f) =
      let t : (before == null) ≡ true = ground arith in
      let u : (n == null) ≡ true = ground arith in
      let b0 = Rules.not_null block in
      simp (t, u, b0, block.holds)
        (returns (
          refl,
          record {
            gone = ground arith;
            to_next = λ e' ne. absurd (ne e);
            to_prev = λ e' ne. absurd (ne f);
            same = λ a x y z. ground arith;
            supply = refl;
          },
        ))
  unlink-Unlinked first (inl e) (inr (d', f)) =
      let t : (before == null) ≡ true = ground arith in
      let u = Rules.not_null f in
      let b0 = Rules.not_null block in
      let bn : (b == n) ≡ false = ground (arith, apart.1.0) in
      simp (t, u, b0, f.holds, bn, block.holds)
        (returns (
          refl,
          record {
            gone = ground arith;
            to_next = λ e' ne. absurd (ne e);
            to_prev = λ e' ne e''. ground (arith, f.holds, apart.1.0);
            same = λ a x y z. ground (arith, z, f.ne_null);
            supply = refl;
          },
        ))
  unlink-Unlinked first (inr (d', e)) (inl f) =
      let t = Rules.not_null e in
      let u : (n == null) ≡ true = ground arith in
      let b0 = Rules.not_null block in
      let bb : (b == before) ≡ false = ground (arith, apart.0) in
      simp (t, u, b0, e.holds, bb, block.holds)
        (returns (
          refl,
          record {
            gone = ground arith;
            to_next = λ e' ne e''. ground (arith, e.holds, apart.0);
            to_prev = λ e' ne. absurd (ne f);
            same = λ a x y z. ground (arith, y, e.ne_null);
            supply = refl;
          },
        ))
  unlink-Unlinked first (inr (d', e)) (inr (d'', f)) =
      let t = Rules.not_null e in
      let u = Rules.not_null f in
      let b0 = Rules.not_null block in
      let bb : (b == before) ≡ false = ground (arith, apart.0) in
      let bn : (b == n) ≡ false = ground (arith, apart.1.0) in
      let nb : (n == before) ≡ false = ==-ne n before (λ q. f.ne_null (apart.1.1 (sym q))) in
      simp (t, u, b0, e.holds, f.holds, bb, bn, nb, block.holds)
        (returns (
          refl,
          record {
            gone = ground arith;
            to_next = λ e' ne e''. ground (arith, e.holds, apart.0, nb);
            to_prev = λ e' ne e''. ground (arith, f.holds, apart.1.0);
            same = λ a x y z. ground (arith, y, z, e.ne_null, f.ne_null);
            supply = refl;
          },
        ))

-- The variables after a block has been freed.
abbrev pub less_one : Ptr → Bool → Harness → Harness
less_one first good st = record st {
  allocated = first;
  allocated_count = (st.allocated_count + 2 ^ 64 - 1) % 2 ^ 64;
  error_occurred = st.error_occurred || not good;
}

-- Whether both marks of a block are as test_malloc has left them.
abbrev pub marked : Block → Bool
marked e = (e.magic_header == magicheader) && (e.footer == magicfooter)

-- The head of test_free, up to the statements that unlink the block.
pub test_free-unlink :
    (h : BlockHeap) (st : Harness) (b : Ptr) (e : Block) (k : ℕ)
    → st.noallocate_mode ≡ false
    → b + header_size < 2 ^ 64
    → Points h b e
    → (if st.cautious_mode then find_loop k st.allocated b else pure true) h ≡ ok true h
    → test_free k (b + header_size) st h
      ≡ and_then
          (unlink b e.prev e.next st.allocated
            (record h { cell = write h.cell b (some (overwritten e)) }))
          (λ first. pure (less_one first (marked e) st))
unfolding test_free unlink
test_free-unlink h st b e k enabled small block search =
    let p0 : (b + header_size == null) ≡ false = ground arith in
    let home : header_of (b + header_size) ≡ b = omega arith in
    rw (enabled, p0, home, search)
      (rw (Rules.load-ok block) (rw (Rules.store-ok block (overwritten e))))
