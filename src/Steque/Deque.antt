-- ===== src/Steque/Deque.antt =====
-- The specification of steque.h: a sequence of items that grows at both ends and shrinks at the
-- front. A program over it is a list of calls.
use cohere_technology_skillb.Prelude.{Option, none, some, List, [], ◌∷◌, ◌++◌}
use mathlib.Core.Option
use cohere_technology_skillb.Memory.{Ptr}

pub data Call : Type 0 where
  enqueue : Ptr → Call
  push : Ptr → Call
  pop : Call
  cycle : Call
  front : Call

-- The items after a call and what it returns; `none` is an underflow.
abbrev pub call : Call → List Ptr → Option (List Ptr × List Ptr)
call (enqueue i) xs = some (xs ++ (i ∷ []), [])
call (push i) xs = some (i ∷ xs, [])
call pop [] = none
call pop (x ∷ xs) = some (xs, x ∷ [])
call cycle [] = some ([], [])
call cycle (x ∷ xs) = some (xs ++ (x ∷ []), [])
call front [] = none
call front (x ∷ xs) = some (x ∷ xs, x ∷ [])

-- The calls that follow one, unless it underflows.
unfoldable pub continue :
    (List Ptr → Option (List Ptr × List Ptr))
    → Option (List Ptr × List Ptr)
    → Option (List Ptr × List Ptr)
continue rest none = none
continue rest (some (xs, out)) = Option.map (λ (ys, more). (ys, out ++ more)) (rest xs)

unfoldable pub calls : List Call → List Ptr → Option (List Ptr × List Ptr)
unfolding continue
calls [] xs = some (xs, [])
calls (c ∷ cs) xs = continue (calls cs) (call c xs)
