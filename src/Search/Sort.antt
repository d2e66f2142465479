-- ===== src/Search/Sort.antt =====
-- bubble_sort of src/binary_search.cpp and its flag.
use cli_pos.Base.{ℕ, zero, suc, ◌≡◌, ◌≢◌, refl, List, [], ◌∷◌}
use cli_pos.Fault.{err, exhausted}
use cli_pos.Text.{Text}
use cli_pos.Search.{bubble_from, bubble_pass, sort_loop, bubble_sort}

bubble_from-ne-nil : (x : Text) (v : List Text) → bubble_from x v ≢ []
unfolding bubble_from
bubble_from-ne-nil x [] e = cc
bubble_from-ne-nil x (y ∷ v) e = cc

-- However many rounds it is given, the sort of a vector that is not empty has not returned.
pub bubble_sort_never : (fuel : ℕ) (v : List Text) → v ≢ [] → bubble_sort fuel v ≡ err exhausted
unfolding bubble_sort sort_loop bubble_pass
bubble_sort_never zero v h = refl
bubble_sort_never (suc fuel) [] h = absurd (h refl)
bubble_sort_never (suc fuel) (x ∷ v) h =
    bubble_sort_never fuel (bubble_from x v) (bubble_from-ne-nil x v)
