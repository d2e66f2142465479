-- ===== src/Search/Prefix.antt =====
-- binary_search of src/binary_search.cpp on a name that begins with another.
use cli_pos.Base.{
  ℕ, ◌+◌, ◌-◌, ◌/◌, ◌<◌, ◌^◌, ◌≡◌, ◌≢◌, sym, ap, ◌∙◌, List, [], ◌∷◌, ◌++◌, some, arith, length,
  get_elem?, false, Bool-cases, inl, inr,
}
use cli_pos.Text.{Text, text_eq}
use cli_pos.Search.{compare_string, binary_search}
use cli_pos.Search.Find.{IsBelow, search_loop-IsBelow}
use cli_pos.Search.Loop.{stop_lem, lt_get_elem?, middle, loop_down}
use cli_pos.Search.Order.{Above-append, compare_string-Above, text_eq_iff}

append_ne : (p t : Text) → t ≢ [] → p ≢ p ++ t
append_ne [] t h e = h (sym e)
append_ne (c ∷ p) t h e = append_ne p t h (cc)

goes_left :
    (p t : Text) → t ≢ [] → (text_eq p (p ++ t) ≡ false) × (compare_string (p ++ t) p ≡ false)
goes_left p t h = (differ, no_higher)
  where
    differ : text_eq p (p ++ t) ≡ false
    differ = elim (Bool-cases (text_eq p (p ++ t))) [
      | inl e ↦ absurd (append_ne p t h ((text_eq_iff p (p ++ t)).0 e))
      | inr e ↦ e
    ]

    no_higher : compare_string (p ++ t) p ≡ false
    no_higher = elim (Bool-cases (compare_string (p ++ t) p)) [
      | inl e ↦ absurd ((Above-append p t).0 (compare_string-Above (p ++ t) p e))
      | inr e ↦ e
    ]

-- In a vector of fewer than 2^31 names, with a proper prefix of the name in the middle, the search returns
-- a place that is not above the middle: the name is not found where it stands behind the prefix.
pub binary_search_misses :
    (garbage : ℕ) (v : List Text) (p t : Text)
    → t ≢ []
    → length v < 2 ^ 31
    → get_elem? v ((length v - 1) / 2) ≡ some p
    → IsBelow ((length v - 1) / 2 + 1) (binary_search garbage v (p ++ t))
unfolding binary_search
binary_search_misses garbage v p t h b at =
    let n = length v in
    let m = middle 0 n in
    let within = lt_get_elem? v ((n - 1) / 2) p at in
    let (differ, down) = goes_left p t h in
    let same : m ≡ (n - 1) / 2 = omega arith in
    let here : get_elem? v m ≡ some p = ap (get_elem? v) same ∙ at in
    rw
      (
        stop_lem n (omega arith) b,
        loop_down n v (p ++ t) 0 n garbage p here (omega arith) differ down,
      )
      (search_loop-IsBelow n v (p ++ t) 0 m m ((n - 1) / 2 + 1) b (omega arith) (omega arith)
        (omega arith) (inr (omega arith)))
