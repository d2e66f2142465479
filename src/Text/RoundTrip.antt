-- ===== src/Text/RoundTrip.antt =====
-- `std::to_string` of an integer, and `std::stol` on it.
use cli_pos.Base.{
  ℕ, zero, suc, ◌+◌, ◌-◌, ◌*◌, ◌/◌, ◌%◌, ◌^◌, ◌≤◌, ◌<◌, ◌≡◌, refl, ◌∙◌, true, false, [], ◌∷◌, ◌++◌,
  append-nil, arith, ltb, Bool-cases, inl, inr,
}
use cli_pos.Base.Int.{ℤ, pos, negsuc}
use cli_pos.Fault.{ok}
use cli_pos.Text.Decimal.{
  Text, is_digit, is_space, print_digits, print_nat, to_string, read_digits, starts_with_digit,
  skip_space, read_magnitude, read_sign, stol,
}

abbrev pub IsDigits : Text → Type 0
IsDigits [] = Unit {0}
IsDigits (c ∷ s) = (is_digit c ≡ true) × IsDigits s

pub IsDigits-append : (s t : Text) → IsDigits s → IsDigits t → IsDigits (s ++ t)
IsDigits-append [] t p q = q
IsDigits-append (c ∷ s) t (d, p) q = (d, IsDigits-append s t p q)

is_digit-add : (n : ℕ) → n < 10 → is_digit (b'0' + n) ≡ true
unfolding is_digit
is_digit-add n h = ground arith

pub print_digits-IsDigits : (fuel n : ℕ) → IsDigits (print_digits fuel n)
unfolding print_digits
print_digits-IsDigits zero n = tt
print_digits-IsDigits (suc fuel) n = elim (Bool-cases (ltb n 10)) [
  | inl small ↦ rw (small, print_digits) (is_digit-add n (ground arith), tt)
  | inr large ↦
      rw (large, print_digits)
        (IsDigits-append (print_digits fuel (n / 10)) _ (print_digits-IsDigits fuel (n / 10))
          (is_digit-add (n % 10) (omega arith), tt))
]

-- Digits are read one behind the other.
pub read_digits-append :
    (n : ℕ) (s t : Text) → IsDigits s → read_digits n (s ++ t) ≡ read_digits (read_digits n s) t
unfolding read_digits
read_digits-append n [] t p = refl
read_digits-append n (c ∷ s) t (d, p) =
    rw (d, read_digits) (read_digits-append (n * 10 + (c - b'0')) s t p)

read_digits-digit : (m n : ℕ) → n < 10 → read_digits m ((b'0' + n) ∷ []) ≡ m * 10 + n
unfolding read_digits
read_digits-digit m n h = rw (is_digit-add n h, read_digits) (omega arith)

pub read_digits-print_digits : (fuel n : ℕ) → n < fuel → read_digits 0 (print_digits fuel n) ≡ n
unfolding print_digits
read_digits-print_digits zero n h = elim h [ ]
read_digits-print_digits (suc fuel) n h = elim (Bool-cases (ltb n 10)) [
  | inl small ↦ rw (small, print_digits) (read_digits-digit 0 n (ground arith) ∙ omega arith)
  | inr large ↦
      let larger : 10 ≤ n = ground arith in
      let ih = read_digits-print_digits fuel (n / 10) (omega arith) in
      rw
        (
          large,
          print_digits,
          read_digits-append 0 (print_digits fuel (n / 10)) ((b'0' + n % 10) ∷ [])
              (print_digits-IsDigits fuel (n / 10)),
          ih,
          read_digits-digit (n / 10) (n % 10) (omega arith),
        )
        (omega arith)
]

read_digits_stops : (m : ℕ) (t : Text) → starts_with_digit t ≡ false → read_digits m t ≡ m
unfolding read_digits starts_with_digit
read_digits_stops m [] h = refl
read_digits_stops m (c ∷ s) h = rw (h, read_digits)

-- A printed number before a text that does not go on with a digit is read back.
pub read_digits-print_nat :
    (n : ℕ) (t : Text) → starts_with_digit t ≡ false → read_digits 0 (print_nat n ++ t) ≡ n
unfolding print_nat
read_digits-print_nat n t h =
    rw
      (
        read_digits-append 0 (print_digits (suc n) n) t (print_digits-IsDigits (suc n) n),
        read_digits-print_digits (suc n) n (omega arith),
      )
      (read_digits_stops n t h)

-- A printed number is not empty.
print_digits_head : (fuel n : ℕ) → (c : ℕ) × (s : Text) × (print_digits (suc fuel) n ≡ c ∷ s)
unfolding print_digits
print_digits_head zero n = elim (Bool-cases (ltb n 10)) [
  | inl small ↦ (b'0' + n, [], rw (small, print_digits))
  | inr large ↦ (b'0' + n % 10, [], rw (large, print_digits))
]
print_digits_head (suc fuel) n = elim (Bool-cases (ltb n 10)) [
  | inl small ↦ (b'0' + n, [], rw (small, print_digits))
  | inr large ↦
      let (c, s, e) = print_digits_head fuel (n / 10) in
      (c, s ++ ((b'0' + n % 10) ∷ []), rw (large, print_digits) (rw e))
]

pub print_nat-IsDigits : (n : ℕ) → IsDigits (print_nat n)
unfolding print_nat
print_nat-IsDigits n = print_digits-IsDigits (suc n) n

pub print_nat_head : (n : ℕ) → (c : ℕ) × (s : Text) × (print_nat n ≡ c ∷ s) × (is_digit c ≡ true)
unfolding print_nat
print_nat_head n =
    let (c, s, e) = print_digits_head n n in
    let d : IsDigits (c ∷ s) = rw e at (print_digits-IsDigits (suc n) n) in (c, s, e, d.0)

is_digit_not_space : (c : ℕ) → is_digit c ≡ true → is_space c ≡ false
unfolding is_digit is_space
is_digit_not_space c h = ground arith

-- Reading a sign and a magnitude, of a text that begins with a digit.
stol_digits :
    (c : ℕ) (s t : Text)
    → is_digit c ≡ true
    → stol ((c ∷ s) ++ t) ≡ read_magnitude (2 ^ 63) false ((c ∷ s) ++ t)
unfolding stol skip_space read_sign is_digit is_space
stol_digits c s t h = ground arith

read_magnitude_value :
    (c : ℕ) (s : Text) (n : ℕ)
    → is_digit c ≡ true
    → read_digits 0 (c ∷ s) ≡ n
    → n < 2 ^ 63
    → read_magnitude (2 ^ 63) false (c ∷ s) ≡ ok (pos n)
unfolding read_magnitude starts_with_digit
read_magnitude_value c s n d e h = ground arith

-- A number printed before a text that does not go on with a digit is what `stol` reads.
pub stol-print_nat :
    (n : ℕ) (t : Text)
    → n < 2 ^ 63
    → starts_with_digit t ≡ false
    → stol (print_nat n ++ t) ≡ ok (pos n)
stol-print_nat n t h q =
    let (c, s, e, d) = print_nat_head n in
    let value : read_digits 0 (c ∷ (s ++ t)) ≡ n = rw e at (read_digits-print_nat n t q) in
    rw e (stol_digits c s t d ∙ read_magnitude_value c (s ++ t) n d value h)

stol_minus : (s : Text) → stol (b'-' ∷ s) ≡ read_magnitude (2 ^ 63) true s
unfolding stol skip_space read_sign is_space
stol_minus s = refl

read_magnitude_minus :
    (s : Text) (n : ℕ)
    → starts_with_digit s ≡ true
    → read_digits 0 s ≡ suc n
    → n < 2 ^ 63
    → read_magnitude (2 ^ 63) true s ≡ ok (negsuc n)
unfolding read_magnitude
read_magnitude_minus s n d e h = ground arith

print_nat_digit : (n : ℕ) → starts_with_digit (print_nat n) ≡ true
unfolding starts_with_digit
print_nat_digit n = let (c, s, e, d) = print_nat_head n in rw e d

-- The integers of a `long int`.
abbrev pub IsLong : ℤ → Type 0
IsLong (pos n) = n < 2 ^ 63
IsLong (negsuc n) = n < 2 ^ 63

-- `std::stol` reads back every `long int` that `std::to_string` prints.
pub stol-to_string : (z : ℤ) → IsLong z → stol (to_string z) ≡ ok z
unfolding to_string starts_with_digit
stol-to_string (pos n) h = rw (append-nil (print_nat n)) at (stol-print_nat n [] h refl)
stol-to_string (negsuc n) h =
    stol_minus (print_nat (suc n))
    ∙ read_magnitude_minus (print_nat (suc n)) n (print_nat_digit (suc n))
        (rw (append-nil (print_nat (suc n))) at (read_digits-print_nat (suc n) [] refl)) h
