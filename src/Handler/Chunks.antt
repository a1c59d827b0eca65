-- ===== src/Handler/Chunks.antt =====
-- The chunk loop of handler_get.
use cohere_technology_skillb.Prelude.{
  ℕ, zero, suc, ◌+◌, ◌-◌, ◌≤◌, ◌<◌, ◌≡◌, refl, sym, ap, ◌∙◌, true, false, Option, some, List, [],
  ◌∷◌, ◌++◌, arith, length, length-append, take, drop, ltb, ◌==◌, Bool-cases, inl, inr, ltb→lt,
  lt→ltb, ==-self,
}
use mathlib.Core.List.{append_assoc, append-nil}
use cohere_technology_skillb.Content.{Offsets}
use cohere_technology_skillb.Handler.{buffer_size, returned, gfs_send, send_loop}

-- A chunk of the bytes `s` from `at` on.
pub record IsChunk (s : List ℕ) (at : ℕ) (first : ℕ) (rest : List ℕ) : Type 0 where
  pub follows : drop at s ≡ (first ∷ rest) ++ drop (at + suc (length rest)) s

-- pread is documented to deliver at least one byte of a file before its end.
abbrev pub Reads : (ℕ → ℕ → ℕ → Option (List ℕ)) → ℕ → List ℕ → Type 0
Reads pread fd s =
    (at : ℕ)
    → at < length s
    → (c : ℕ) × ((rest : List ℕ) × ((pread fd buffer_size at ≡ some (c ∷ rest))
          × IsChunk s at c rest))

-- A connection that accepts all that is written.
abbrev pub Accepts : (List ℕ → List ℕ → Option ℕ) → Type 0
Accepts write = (sent bytes : List ℕ) → write sent bytes ≡ some (length bytes)

take-length : (s : List ℕ) → take (length s) s ≡ s
take-length [] = refl
take-length (c ∷ s) = ap (λ t. c ∷ t) (take-length s)

drop-past : (s : List ℕ) (n : ℕ) → length s ≤ n → drop n s ≡ []
drop-past [] zero h = refl
drop-past [] (suc n) h = refl
drop-past (c ∷ s) zero h = absurd (omega arith)
drop-past (c ∷ s) (suc n) h = drop-past s n (omega arith)

length-drop : (s : List ℕ) (n : ℕ) → length (drop n s) ≡ length s - n
length-drop s zero = omega arith
length-drop [] (suc n) = omega arith
length-drop (c ∷ s) (suc n) = omega (arith, length-drop s n)

module _ {write : List ℕ → List ℕ → Option ℕ} (accepts : Accepts write) where
  pub gfs_send-Accepts :
      (sent bytes : List ℕ) → gfs_send write sent bytes ≡ (some (length bytes), sent ++ bytes)
  unfolding gfs_send
  gfs_send-Accepts sent bytes =
      rw (accepts sent bytes, gfs_send)
        (ap (λ t. (some (length bytes), sent ++ t)) (take-length bytes))

  module _ (pread : ℕ → ℕ → ℕ → Option (List ℕ)) where
    send_loop-round :
        (k fd len at : ℕ) (sent : List ℕ) (o : Offsets) (c : ℕ) (rest : List ℕ)
        → at < len
        → pread fd buffer_size at ≡ some (c ∷ rest)
        → send_loop pread write (suc k) fd len at sent o
          ≡ send_loop pread write k fd len (at + suc (length rest)) (sent ++ (c ∷ rest)) o
    unfolding send_loop
    send_loop-round k fd len at sent o c rest lt e =
        let all : (suc (length rest) == suc (length rest)) ≡ true = ==-self (suc (length rest)) in
        rw (lt→ltb at len lt, e) (rw (gfs_send-Accepts sent (c ∷ rest)) (rw all))

    pub send_loop-drop :
        (k fd : ℕ) (s : List ℕ) (at : ℕ) (sent : List ℕ) (o : Offsets)
        → Reads pread fd s
        → at ≤ length s
        → length s < k + at
        → send_loop pread write k fd (length s) at sent o
          ≡ returned (some (length s)) (sent ++ drop at s) o false
    unfolding send_loop
    send_loop-drop zero fd s at sent o reads le fuel = absurd (omega arith)
    send_loop-drop (suc k) fd s at sent o reads le fuel = elim (Bool-cases (ltb at (length s))) [
      | inl test ↦
          let lt = ltb→lt at (length s) test in
          let (c, (rest, (e, chunk))) = reads at lt in
          let ends : at + suc (length rest) ≤ length s = omega (
            arith,
            ap length chunk.follows,
            length-append (c ∷ rest) (drop (at + suc (length rest)) s),
            length-drop s at,
            lt,
          ) in
          let whole : (sent ++ (c ∷ rest)) ++ drop (at + suc (length rest)) s ≡ sent ++ drop at s =
            append_assoc sent (c ∷ rest) _ ∙ ap (λ t. sent ++ t) (sym chunk.follows) in
          send_loop-round k fd (length s) at sent o c rest lt e
          ∙ send_loop-drop k fd s (at + suc (length rest)) (sent ++ (c ∷ rest)) o reads ends
              (omega arith)
          ∙ ap (λ t. returned (some (length s)) t o false) whole
      | inr past ↦
          let same : at ≡ length s = ground arith in
          let end : drop at s ≡ [] = drop-past s at (omega arith) in
          rw past (rw (end, append-nil) (ap (λ n. returned (some n) sent o false) same))
    ]
