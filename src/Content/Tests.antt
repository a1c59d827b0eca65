-- ===== src/Content/Tests.antt =====
-- A table of two files on disk, and the theorems of content.c at it.
use cohere_technology_skillb.Prelude.{
  ℕ, zero, suc, ◌≡◌, refl, Option, none, some, List, [], ◌∷◌, arith, reverse,
}
use cohere_technology_skillb.Queue.Strings.{c_string}
use cohere_technology_skillb.Content.Strcmp.{strcmp}
use cohere_technology_skillb.Content.{
  Item, item, Offsets, loaded, content_init, content_get, parse_line,
}
use cohere_technology_skillb.Content.Search.{IsSorted}
use cohere_technology_skillb.Content.Load.{
  AreLines, entries, Occurs, Sorts, Right, content_init-content_get,
}

-- "/b c" and "/a d".
abbrev lines : List (List ℕ)
lines = (47 ∷ 98 ∷ 32 ∷ 99 ∷ 10 ∷ []) ∷ (47 ∷ 97 ∷ 32 ∷ 100 ∷ 10 ∷ []) ∷ []

-- The descriptor is the first byte of the path.
abbrev open_any : ℕ → Option (List ℕ) → Option ℕ
open_any n none = none
open_any n (some []) = some 2
open_any n (some (c ∷ s)) = some c

abbrev items : List Item
items = item (47 ∷ 98 ∷ []) 99 ∷ item (47 ∷ 97 ∷ []) 100 ∷ []

lines-AreLines : AreLines lines
unfolding c_string
lines-AreLines = ((λ e. cc e), ((λ e. cc e), tt))

read : entries open_any 0 lines ≡ some items
unfolding entries parse_line c_string
read = refl

reversed-IsSorted : IsSorted (reverse items)
unfolding strcmp
reversed-IsSorted zero zero x y p e f = ground arith
reversed-IsSorted zero (suc zero) x y p e f = ground arith
reversed-IsSorted zero (suc (suc j)) x y p e f = cc
reversed-IsSorted (suc zero) zero x y p e f = absurd (omega arith)
reversed-IsSorted (suc zero) (suc zero) x y p e f = ground arith
reversed-IsSorted (suc zero) (suc (suc j)) x y p e f = cc
reversed-IsSorted (suc (suc i)) j x y p e f = cc

swap_index : (x : Item) (xs : Item) (ys : Item) → Occurs x (xs ∷ ys ∷ []) → Occurs x (ys ∷ xs ∷ [])
swap_index x a b (zero, e) = (1, e)
swap_index x a b (suc zero, e) = (0, e)
swap_index x a b (suc (suc i), e) = cc

reverse-Sorts : Sorts reverse items
reverse-Sorts = record {
  sorted = reversed-IsSorted;
  keeps = λ x. (swap_index x _ _, swap_index x _ _);
}

content_init-content_get_example :
    (content_init open_any reverse (some lines) ≡ loaded (reverse items))
    × ((key : List ℕ) (o : Offsets) → Right items key o (content_get (reverse items) key o))
content_init-content_get_example =
    content_init-content_get open_any reverse lines lines-AreLines (omega arith) items read
      reverse-Sorts

-- A last line without a newline loses the last byte of its path.
cut_path : parse_line (97 ∷ 32 ∷ 98 ∷ 99 ∷ []) ≡ (97 ∷ [], some (98 ∷ []))
unfolding parse_line c_string
cut_path = refl
