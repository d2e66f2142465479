-- ===== src/Tests/Names.antt =====
-- A list of names, searched and sorted.
use cli_pos.Base.{◌≡◌, ◌≢◌, refl, List, [], ◌∷◌, ◌++◌, arith, inl, length, ◌-◌, ◌/◌, ◌+◌}
use cli_pos.Fault.{ok, err, exhausted}
use cli_pos.Text.{Text, codes}
use cli_pos.Search.{binary_search, bubble_sort}
use cli_pos.Search.Find.{IsBelow, IsAscending, binary_search-IsBelow, binary_search_finds}
use cli_pos.Search.Prefix.{binary_search_misses}
use cli_pos.Search.Sort.{bubble_sort_never}
use cli_pos.Search.Order.{Above, compare_string_iff}
use cli_pos.Base.{◌↔◌, true}
use cli_pos.Search.{compare_string}

abbrev shelf : List Text
shelf = codes "bread" ∷ codes "milk" ∷ codes "tea" ∷ []

shelf-IsAscending : IsAscending shelf
shelf-IsAscending =
    ((inl (omega arith), (inl (omega arith), tt)), ((inl (omega arith), tt), (tt, tt)))

binary_search_finds_example : binary_search 77 shelf (codes "milk") ≡ ok 1
binary_search_finds_example =
    binary_search_finds 77 shelf 1 (codes "milk") (omega arith) (omega arith) shelf-IsAscending refl

binary_search-IsBelow_example : IsBelow (length shelf) (binary_search 77 shelf (codes "salt"))
binary_search-IsBelow_example =
    binary_search-IsBelow 77 shelf (codes "salt") (omega arith) (omega arith)

-- A name behind a proper prefix of it, which stands in the middle.
abbrev peas : List Text
peas = codes "oat" ∷ codes "pea" ∷ codes "pea nut" ∷ []

nut : codes " nut" ≢ []
nut e = cc

binary_search_misses_example :
    IsBelow ((length peas - 1) / 2 + 1) (binary_search 77 peas (codes "pea" ++ codes " nut"))
binary_search_misses_example =
    binary_search_misses 77 peas (codes "pea") (codes " nut") nut (omega arith) refl

shelf_stocked : shelf ≢ []
shelf_stocked e = cc

bubble_sort_never_example : bubble_sort 5 shelf ≡ err exhausted
bubble_sort_never_example = bubble_sort_never 5 shelf shelf_stocked

compare_string_iff_example :
    (compare_string (codes "tea") (codes "milk") ≡ true) ↔ Above (codes "tea") (codes "milk")
compare_string_iff_example = compare_string_iff (codes "tea") (codes "milk") (omega arith)
