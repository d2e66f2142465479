-- ===== src/Input/Digits.antt =====
-- remove_non_nr of src/input_string.cpp, and std::stol on what it leaves.
use cli_pos.Base.{
  ℕ, zero, suc, ◌^◌, ◌≤◌, ◌<◌, ◌≡◌, ◌≢◌, ◌⊎◌, refl, ap, true, false, [], ◌∷◌, arith, length, take,
  inl,
}
use cli_pos.Base.Int.{ℤ, pos, negsuc}
use cli_pos.Fault.{Result, ok, err, invalid_argument, out_of_range}
use cli_pos.Text.{Text, codes, is_digit, is_space, stol, read_magnitude, read_sign, skip_space}
use cli_pos.Text.RoundTrip.{IsDigits}
use cli_pos.Input.{is_nr, keep_nr, short_range, remove_non_nr}

abbrev pub AllNr : Text → Type 0
AllNr [] = Unit {0}
AllNr (c ∷ s) = (is_nr c ≡ true) × AllNr s

keep_nr-AllNr : (s : Text) → AllNr (keep_nr s)
unfolding keep_nr
keep_nr-AllNr [] = tt
keep_nr-AllNr (c ∷ s) = ground (arith, keep_nr-AllNr s)

-- remove_non_nr leaves digits and dots alone, at least one of them.
pub remove_non_nr-AllNr : (input : Text) → AllNr (remove_non_nr input) × (remove_non_nr input ≢ [])
unfolding remove_non_nr is_nr
remove_non_nr-AllNr input = go (keep_nr (take short_range input)) (keep_nr-AllNr _)
  where
    go :
        (o : Text)
        → AllNr o
        → let r : Text = elim o [ [] ↦ codes "0" | c ∷ s ↦ c ∷ s ] in AllNr r × (r ≢ [])
    go [] p = ((refl, tt), λ e. cc)
    go (c ∷ s) p = (p, λ e. cc)

-- What `stol` answers on a text that begins with a digit or a dot.
abbrev pub IsCode : Result ℤ → Type 0
IsCode (ok (pos n)) = n < 2 ^ 63
IsCode (ok (negsuc n)) = ⊥
IsCode (err f) = (f ≡ invalid_argument) ⊎ (f ≡ out_of_range)

read_magnitude-IsCode : (s : Text) → IsCode (read_magnitude (2 ^ 63) false s)
unfolding read_magnitude
read_magnitude-IsCode s = ground arith

stol_nr : (c : ℕ) (s : Text) → is_nr c ≡ true → stol (c ∷ s) ≡ read_magnitude (2 ^ 63) false (c ∷ s)
unfolding stol skip_space read_sign is_nr is_space
stol_nr c s h = ground arith

-- A code that is read from a filtered text is never negative, and fits a `long int`; otherwise the
-- conversion throws.
pub stol-remove_non_nr : (input : Text) → IsCode (stol (remove_non_nr input))
unfolding stol skip_space read_sign
stol-remove_non_nr input = go (remove_non_nr input) (remove_non_nr-AllNr input).0
  where
    go : (s : Text) → AllNr s → IsCode (stol s)
    go [] p = inl refl
    go (c ∷ s) p = rw (stol_nr c s p.0) (read_magnitude-IsCode (c ∷ s))

keep_nr_digits : (s : Text) → IsDigits s → keep_nr s ≡ s
unfolding keep_nr is_nr is_digit
keep_nr_digits [] p = refl
keep_nr_digits (c ∷ s) p = ground (arith, keep_nr_digits s p.1)

take_all : (n : ℕ) (s : Text) → length s ≤ n → take n s ≡ s
take_all zero [] h = refl
take_all zero (c ∷ s) h = elim h [ ]
take_all (suc n) [] h = refl
take_all (suc n) (c ∷ s) h = ap (◌∷◌ c) (take_all n s (omega arith))

pub remove_non_nr_digits :
    (c : ℕ) (s : Text)
    → IsDigits (c ∷ s)
    → length (c ∷ s) ≤ short_range
    → remove_non_nr (c ∷ s) ≡ c ∷ s
unfolding remove_non_nr
remove_non_nr_digits c s d l =
    rw (remove_non_nr, take_all short_range (c ∷ s) l, keep_nr_digits (c ∷ s) d)
