-- ===== src/Qtest/Remove.antt =====
-- rh on a queue of two strings or more.
use cohere_technology_skillb.Prelude.{
  ℕ, zero, suc, ◌+◌, ◌-◌, ◌^◌, ◌<◌, ◌≡◌, ◌↔◌, refl, sym, ◌∙◌, Bool, true, false, some, List, [],
  ◌∷◌, ◌++◌, arith, ◌==◌, length, take, drop, replicate, get_elem?, Bool-cases, inl, inr,
}
use cohere_technology_skillb.Memory.Rules
use cohere_technology_skillb.Memory.Rules.{Returns, returns, Points}
use cohere_technology_skillb.Content.Strcmp.{Sign, strcmp, strcmp_self, eq_of_strcmp, lt, eq, gt}
use cohere_technology_skillb.Queue.Strings.{c_string, Copied}
use cohere_technology_skillb.Queue.Remove.{q_remove_head-cons}
use cohere_technology_skillb.Queue.{q_remove_head}
use cohere_technology_skillb.Queue.Segment.{Entry, entry, Entries}
use cohere_technology_skillb.Qtest.{Tester, World, guarded, clear_error}
use cohere_technology_skillb.Qtest.Commands.{
  do_remove_head, removes_buffer, string_pad, stored, matches, expected, count_down,
}
use cohere_technology_skillb.Qtest.State.{
  IsTester, guarded-Returns, clear-IsTester, shown_checked-IsTester,
}

get_elem?-drop :
    (n : ℕ) (l : List ℕ) (d : ℕ) (rest : List ℕ) → drop n l ≡ d ∷ rest → get_elem? l n ≡ some d
get_elem?-drop zero [] d rest e = cc
get_elem?-drop zero (x ∷ l) d rest e = cc
get_elem?-drop (suc n) [] d rest e = cc
get_elem?-drop (suc n) (x ∷ l) d rest e = get_elem?-drop n l d rest e

-- Behind `n` bytes of a longer padding stands an X.
drop-padding :
    (n m : ℕ) (rest : List ℕ)
    → n < m
    → (r : List ℕ) × (drop n (replicate m b'X' ++ rest) ≡ b'X' ∷ r)
drop-padding zero zero rest h = absurd (omega (arith, h))
drop-padding zero (suc m) rest h = (_, refl)
drop-padding (suc n) zero rest h = absurd (omega (arith, h))
drop-padding (suc n) (suc m) rest h = drop-padding n m rest (omega (arith, h))

length-padding : (n : ℕ) (rest : List ℕ) → length (replicate n b'X' ++ rest) ≡ n + length rest
length-padding zero rest = omega arith
length-padding (suc n) rest = omega (arith, length-padding n rest)

-- An array that starts with a string that is not empty.
starts :
    (out : List ℕ) (c : ℕ) (s : List ℕ)
    → c_string out ≡ c ∷ s
    → (a : ℕ) × ((out' : List ℕ) × ((out ≡ a ∷ out') × ((a == 0) ≡ false)))
unfolding c_string
starts [] c s e = cc
starts (a ∷ out') c s e = elim (Bool-cases (a == 0)) [
  | inl z ↦ let bad : [] ≡ c ∷ s = rw (z) at e in cc
  | inr nz ↦ (a, (out', (refl, nz)))
]

-- What q_remove_head leaves in the buffer passes the command's tests.
stored-Copied :
    (t : Tester) {b : ℕ} {s out : List ℕ}
    → 0 < t.string_length
    → Copied (removes_buffer t) (b ∷ s) out t.string_length
    → stored t out ≡ true
stored-Copied t {b} {s} {out} some_room c =
    let (n, e) : (n : ℕ) × (t.string_length ≡ suc n) = (t.string_length - 1, omega arith) in
    let (a, (out', (split, nz))) = starts out b (take n s) (rw (e) at c.string) in
    let (r, x) =
      drop-padding t.string_length (t.string_length + string_pad - 1) (0 ∷ []) (omega arith) in
    let at_x : drop (suc t.string_length) out ≡ b'X' ∷ r = c.behind ∙ x in
    let behind : get_elem? out' t.string_length ≡ some b'X' =
      get_elem?-drop t.string_length out' b'X' r (rw (split) at at_x) in
    rw (split, nz, behind) refl

-- The test of the command against the string that is expected.
matches_iff :
    (t : Tester) (s out want : List ℕ)
    → c_string out ≡ take t.string_length s
    → (matches t out (want ∷ []) ≡ true) ↔ (take t.string_length s ≡ take t.string_length want)
matches_iff t s out want e = by (strcmp (c_string out) (expected t want)) refl
  where
    agree :
        take t.string_length s ≡ take t.string_length want
        → strcmp (c_string out) (expected t want) ≡ eq
    agree same = rw (e, same) (strcmp_self (expected t want))

    by :
        (r : Sign)
        → strcmp (c_string out) (expected t want) ≡ r
        → (matches t out (want ∷ []) ≡ true) ↔ (take t.string_length s ≡ take t.string_length want)
    by eq c = (λ _. sym e ∙ eq_of_strcmp _ _ c, λ _. rw (matches, c) refl)
    by lt c = (
      λ m. let bad : false ≡ true = rw (matches, c) at m in cc,
      λ same. let z : lt ≡ eq = sym c ∙ agree same in cc,
    )
    by gt c = (
      λ m. let bad : false ≡ true = rw (matches, c) at m in cc,
      λ same. let z : gt ≡ eq = sym c ∙ agree same in cc,
    )

-- rh with an expected string on a well-formed queue of two strings or more, whose first string is
-- not empty, where string_length is at least 1 and less than 2 ^ 31 - 1025: q_remove_head writes
-- within the buffer, the command succeeds exactly if the two strings agree in their first
-- string_length bytes, and in both cases the queue of the test program is then the old one without
-- its first string, with qcnt as its length.
pub do_remove_head-tail :
    {t : Tester} {p v b : ℕ} {bytes : List ℕ} {y : Entry} {xs : Entries} (w : World)
    (name want : List ℕ)
    → IsTester t (entry p v (b ∷ bytes) ∷ y ∷ xs)
    → 0 < t.string_length
    → t.string_length + 1025 < 2 ^ 31
    → (good : Bool) × ((t' : Tester) × ((do_remove_head w (name ∷ want ∷ []) t ≡ some (good, t'))
          × ((good ≡ true) ↔ (take t.string_length (b ∷ bytes) ≡ take t.string_length want))
          × IsTester t' (y ∷ xs)))
unfolding do_remove_head
do_remove_head-tail {t} {b} {bytes} {y} {xs} w name want i some_room small =
    let i0 = clear-IsTester i in
    let room : t.string_length < length (removes_buffer t) =
      omega (arith, length-padding (t.string_length + string_pad - 1) (0 ∷ [])) in
    let (r, (g, (call, (st, removed, rest)))) =
      guarded-Returns w (q_remove_head t.q (some (removes_buffer t)) (suc t.string_length))
        (clear_error t)
        (q_remove_head-cons (removes_buffer t) t.string_length i0.is (omega (arith, i.few)) room
          (omega (arith, small))) in
    let (s', is) = rest refl in
    let i' : IsTester (count_down (record (clear_error t) { heap = g })) (y ∷ xs) = record {
      s = s';
      is = is;
      counted = omega (arith, i.counted, i.few);
      few = omega (arith, i.few);
      no_error = refl;
    } in
    let one_more : t.string_length + 1 ≡ suc t.string_length = omega arith in
    let called : guarded w (q_remove_head t.q (some (removes_buffer t)) (suc t.string_length))
          (clear_error t)
        ≡ (some (true, some st.out), record (clear_error t) { heap = g }) =
      rw (st.result) at call in
    (
      matches t st.out (want ∷ []),
      (
        _,
        (
          rw
              (
                do_remove_head,
                Rules.not_null i.is.object,
                Rules.load-ok i.is.object,
                one_more,
                called,
                stored-Copied t some_room st.copied,
              )
              (shown_checked-IsTester w (matches t st.out (want ∷ [])) i'),
          matches_iff t (b ∷ bytes) st.out want st.copied.string,
          i',
        ),
      ),
    )
