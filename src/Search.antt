-- ===== src/Search.antt =====
-- src/binary_search.cpp: the order on names, the bubble sort and the search.
pub mod Order
pub mod Loop
pub mod Find
pub mod Prefix
pub mod Sort
use cli_pos.Base.{
  ℕ, zero, suc, ◌+◌, ◌-◌, ◌/◌, ◌^◌, Bool, true, false, List, [], ◌∷◌, Option, none, some, ltb, ◌≡◌,
  refl, length, get_elem?, if◌then◌else◌,
}
use cli_pos.Base.Int.{ℤ, pos, negsuc}
use cli_pos.Words.{count, to_int, size_sub}
use cli_pos.Fault.{Result, ok, err, undefined, exhausted}
use cli_pos.Text.{Text, char_rank, text_eq, codes}

-- The loop of compare_string, over the first `max_size` places of both texts.
unfoldable pub compare_from : ℕ → Text → Text → Bool
compare_from zero s1 s2 = false
compare_from (suc n) [] s2 = false
compare_from (suc n) (c ∷ s1) [] = false
compare_from (suc n) (c ∷ s1) (d ∷ s2) = elim (ltb (char_rank d) (char_rank c)) [
  | true ↦ true
  | false ↦ elim (ltb (char_rank c) (char_rank d)) [ true ↦ false | false ↦ compare_from n s1 s2 ]
]

-- The length is converted to `int max_size`; a negative one makes no round.
unfoldable pub compare_string : Text → Text → Bool
compare_string s1 s2 =
    let shorter = if ltb (length s1) (length s2) then length s1 else length s2 in
    compare_from (count (to_int (pos shorter))) s1 s2

-- The inner loop of bubble_sort from place `i`, with `rounds` places to go: the element at `i` is
-- held as `x`.
unfoldable pub bubble_from : Text → List Text → List Text
bubble_from x [] = x ∷ []
bubble_from x (y ∷ v) =
    let swapped = compare_string x y in
    (if swapped then y else x) ∷ bubble_from (if swapped then x else y) v

-- The bound `v.size() - 1` of the loop wraps round for the empty vector, and `v[0]` is read.
unfoldable pub bubble_pass : List Text → Result (List Text)
bubble_pass [] = err undefined
bubble_pass (x ∷ v) = ok (bubble_from x v)

-- `while (!sorted)`, on fuel. The body only ever writes `false` to `sorted`, its initial value.
unfoldable pub sort_loop : ℕ → Bool → List Text → Result (List Text)
sort_loop zero sorted v = err exhausted
sort_loop (suc fuel) sorted v = elim sorted [
  | true ↦ ok v
  | false ↦ elim (bubble_pass v) [ ok v' ↦ sort_loop fuel false v' | err f ↦ err f ]
]

unfoldable pub bubble_sort : ℕ → List Text → Result (List Text)
bubble_sort fuel v = sort_loop fuel false v

-- `while (start <= end)` of binary_search, with `int`s that are not negative but for an `end` of -1:
-- `stop` is `end + 1`; `mid` is what the variable of that name holds. `mid + 1` may overflow.
unfoldable pub search_loop : ℕ → List Text → Text → ℕ → ℕ → ℕ → Result ℕ
search_loop zero v search_word start stop mid = err exhausted
search_loop (suc fuel) v search_word start stop mid = elim (ltb start stop) [
  | true ↦
      let mid' = start + (stop - 1 - start) / 2 in
      elim (get_elem? v mid') [
        | none ↦ err undefined
        | some word ↦ elim (text_eq word search_word) [
          | true ↦ ok mid'
          | false ↦ elim (compare_string search_word word) [
            | true ↦ elim (ltb (mid' + 1) (2 ^ 31)) [
              | true ↦ search_loop fuel v search_word (mid' + 1) stop mid'
              | false ↦ err undefined
            ]
            | false ↦ search_loop fuel v search_word start mid' mid'
          ]
        ]
      ]
  | false ↦ ok mid
]

-- `end + 1`, where a negative `end` makes no round.
abbrev pub stop_of : ℤ → ℕ
stop_of (pos e) = suc e
stop_of (negsuc e) = 0

-- `v.size() - 1`, in size_t, is converted to `int end`. `garbage` is what the uninitialised variable `mid` holds.
unfoldable pub binary_search : ℕ → List Text → Text → Result ℕ
binary_search garbage v search_word =
    let stop = stop_of (to_int (pos (size_sub (length v) 1))) in
    search_loop (suc stop) v search_word 0 stop garbage

finds_tea : binary_search 77 (codes "bread" ∷ codes "milk" ∷ codes "tea" ∷ []) (codes "tea") ≡ ok 2
unfolding binary_search search_loop compare_string compare_from text_eq to_int size_sub
finds_tea = refl
