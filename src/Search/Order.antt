-- ===== src/Search/Order.antt =====
-- The order of compare_string of src/binary_search.cpp.
use cli_pos.Base.{
  ℕ, zero, suc, ◌^◌, ◌≤◌, ◌<◌, ◌≡◌, ◌↔◌, ◌⊎◌, inl, inr, true, [], ◌∷◌, ◌++◌, arith, ltb, length,
  if◌then◌else◌,
}
use cli_pos.Base.Int.{pos}
use cli_pos.Words.{to_int}
use cli_pos.Text.{Text, char_rank, text_eq}
use cli_pos.Search.{compare_from, compare_string}

-- `s1` is above `s2`: behind a common prefix a `char` of `s1` is larger.
abbrev pub Above : Text → Text → Type 0
Above [] s2 = ⊥
Above (c ∷ s1) [] = ⊥
Above (c ∷ s1) (d ∷ s2) = (char_rank d < char_rank c) ⊎ ((char_rank c ≡ char_rank d) × Above s1 s2)

compare_from-Above : (n : ℕ) (s1 s2 : Text) → compare_from n s1 s2 ≡ true → Above s1 s2
unfolding compare_from
compare_from-Above zero s1 s2 h = cc
compare_from-Above (suc n) [] s2 h = cc
compare_from-Above (suc n) (c ∷ s1) [] h = cc
compare_from-Above (suc n) (c ∷ s1) (d ∷ s2) h = ground (arith, compare_from-Above n s1 s2)

compare_from_of_Above :
    (n : ℕ) (s1 s2 : Text)
    → (length s1 ≤ n) ⊎ (length s2 ≤ n)
    → Above s1 s2
    → compare_from n s1 s2 ≡ true
unfolding compare_from
compare_from_of_Above n [] s2 h a = absurd a
compare_from_of_Above n (c ∷ s1) [] h a = absurd a
compare_from_of_Above zero (c ∷ s1) (d ∷ s2) h a = absurd (omega arith)
compare_from_of_Above (suc n) (c ∷ s1) (d ∷ s2) h a = ground (arith, compare_from_of_Above n s1 s2)

-- Whatever the lengths, a text for which compare_string answers true is above the other.
pub compare_string-Above : (s1 s2 : Text) → compare_string s1 s2 ≡ true → Above s1 s2
unfolding compare_string
compare_string-Above s1 s2 h = compare_from-Above _ s1 s2 h

pub to_int_small : (n : ℕ) → n < 2 ^ 31 → to_int (pos n) ≡ pos n
unfolding to_int
to_int_small n h = ground arith

shorter_lem : (m n : ℕ) → let k = if ltb m n then m else n in ((m ≤ k) ⊎ (n ≤ k)) × (k ≤ m)
shorter_lem m n = (ground arith, ground arith)

-- Where the first text has fewer than 2^31 bytes, compare_string answers true exactly if it is above the
-- other: if it has a larger char behind a common prefix.
pub compare_string_iff :
    (s1 s2 : Text) → length s1 < 2 ^ 31 → (compare_string s1 s2 ≡ true) ↔ Above s1 s2
unfolding compare_string
compare_string_iff s1 s2 small =
    let (shorter, fits) = shorter_lem (length s1) (length s2) in
    let k = if ltb (length s1) (length s2) then length s1 else length s2 in
    let exact : to_int (pos k) ≡ pos k = to_int_small k (omega arith) in
    (compare_string-Above s1 s2, λ a. rw exact (compare_from_of_Above k s1 s2 shorter a))

pub Above-trans : (s t u : Text) → Above s t → Above t u → Above s u
Above-trans [] t u a b = absurd a
Above-trans (c ∷ s) [] u a b = absurd a
Above-trans (c ∷ s) (d ∷ t) [] a b = absurd b
Above-trans (c ∷ s) (d ∷ t) (e ∷ u) a b = ground (arith, Above-trans s t u)

pub Above-irrefl : (s : Text) → ¬ Above s s
Above-irrefl [] a = a
Above-irrefl (c ∷ s) (inl h) = omega arith
Above-irrefl (c ∷ s) (inr h) = Above-irrefl s h.1

-- A text and a continuation of it compare as equal, either way round.
pub Above-append : (s t : Text) → (¬ Above (s ++ t) s) × (¬ Above s (s ++ t))
Above-append [] [] = (λ a. a, λ a. a)
Above-append [] (d ∷ t) = (λ a. a, λ a. a)
Above-append (c ∷ s) t =
    let (up, down) = Above-append s t in (λ a. ground (arith, up), λ a. ground (arith, down))

-- `==` on `std::string`.
pub text_eq_iff : (s t : Text) → (text_eq s t ≡ true) ↔ (s ≡ t)
unfolding text_eq
text_eq_iff [] [] = ground arith
text_eq_iff [] (d ∷ t) = ground arith
text_eq_iff (c ∷ s) [] = ground arith
text_eq_iff (c ∷ s) (d ∷ t) = ground (arith, text_eq_iff s t)
