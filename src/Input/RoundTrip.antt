-- ===== src/Input/RoundTrip.antt =====
-- A code of the database in the forms of src/main.cpp: printed by std::to_string, filtered by
-- remove_non_nr, and read by std::stol.
use cli_pos.Base.{
  ℕ, zero, suc, ◌+◌, ◌*◌, ◌/◌, ◌%◌, ◌^◌, ◌≤◌, ◌<◌, ◌≡◌, ◌≢◌, true, refl, ap, ◌∙◌, arith, [], ◌∷◌,
  length, length-append, ltb, Bool-cases, inl, inr,
}
use cli_pos.Base.Int.{pos}
use cli_pos.Fault.{ok}
use cli_pos.Text.{Text, to_string, stol, print_digits, print_nat}
use cli_pos.Text.RoundTrip.{IsDigits, print_nat-IsDigits, stol-to_string, print_nat_head}
use cli_pos.Input.{remove_non_nr, short_range}
use cli_pos.Input.Digits.{remove_non_nr_digits}

quotient : (n p : ℕ) → n < p * 10 → n / 10 < p
quotient n p h = omega arith

length-print_digits : (d fuel n : ℕ) → n < 10 ^ suc d → length (print_digits fuel n) ≤ suc d
unfolding print_digits
length-print_digits d zero n h = omega arith
length-print_digits zero (suc fuel) n h =
    let small : ltb n 10 ≡ true = ground arith in rw (small, print_digits) (omega arith)
length-print_digits (suc d) (suc fuel) n h = elim (Bool-cases (ltb n 10)) [
  | inl small ↦ rw (small, print_digits) (omega arith)
  | inr large ↦
      rw (large, print_digits)
        (omega (
          arith,
          length-append (print_digits fuel (n / 10)) ((b'0' + n % 10) ∷ []),
          length-print_digits d fuel (n / 10) (quotient n (10 ^ suc d) (omega arith)),
        ))
]

kept_whole : (s : Text) → IsDigits s → s ≢ [] → length s ≤ short_range → remove_non_nr s ≡ s
kept_whole [] p h l = absurd (h refl)
kept_whole (c ∷ s) p h l = remove_non_nr_digits c s p l

print_nat_ne : (n : ℕ) → print_nat n ≢ []
print_nat_ne n e = let (c, s, k, d) = print_nat_head n in cc

length-print_nat : (n : ℕ) → n < 2 ^ 63 → length (print_nat n) ≤ 19
unfolding print_nat
length-print_nat n h = length-print_digits 18 (suc n) n (omega arith)

-- A code that is a `long int` of at least 0 is read back from what is printed of it, filtered.
pub code_round_trip : (n : ℕ) → n < 2 ^ 63 → stol (remove_non_nr (to_string (pos n))) ≡ ok (pos n)
unfolding to_string
code_round_trip n h =
    ap stol (
      kept_whole (print_nat n) (print_nat-IsDigits n) (print_nat_ne n)
        (omega (arith, length-print_nat n h)))
    ∙ stol-to_string (pos n) h
