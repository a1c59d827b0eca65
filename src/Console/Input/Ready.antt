-- ===== src/Console/Input/Ready.antt =====
-- Where read_ready has seen a newline, readline returns a line.
use cohere_technology_skillb.Prelude.{
  ℕ, zero, suc, ◌≡◌, refl, true, some, List, [], ◌∷◌, ◌++◌, arith, ◌==◌, Bool-cases, inl, inr,
}
use cohere_technology_skillb.Console.Input.{
  newline, line_room, Rio, rio, complete, read_loop, readline, has_newline, read_ready,
}

-- With a newline in the buffer the loop of readline does not meet the end of the file.
read_loop-ready :
    (room : ℕ) (got b : List ℕ) (d : ℕ) (cs : List (List ℕ))
    → has_newline b ≡ true
    → (text : List ℕ) × ((r : Rio) × (read_loop room got (rio d b cs) ≡ complete text r))
unfolding read_loop has_newline
read_loop-ready zero got b d cs h = (_, (_, refl))
read_loop-ready (suc room) got [] d cs h = absurd (cc)
read_loop-ready (suc room) got (c ∷ s) d cs h = elim (Bool-cases (c == newline)) [
  | inl is ↦ (got ++ (c ∷ []), (rio d s cs, rw is))
  | inr other ↦
      let (text, (r, e)) = read_loop-ready room (got ++ (c ∷ [])) s d cs (ground arith) in
      (text, (r, rw other e))
]

pub readline-ready :
    (st : List Rio)
    → read_ready st ≡ true
    → (line : List ℕ) × ((st' : List Rio) × (readline st ≡ (some line, st')))
unfolding readline read_ready
readline-ready [] h = absurd (cc)
readline-ready (r ∷ stack) h =
    let (text, (r', e)) = read_loop-ready line_room [] r.buffer r.fd r.chunks h in
    (text, (r' ∷ stack, rw (e, readline)))
