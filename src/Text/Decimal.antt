-- ===== src/Text/Decimal.antt =====
-- `std::string` as a list of bytes, with the conversions that the program takes from the standard
-- library: `std::to_string` on integers, `std::stol` and `std::stoi`, and `isprint` in the C locale.
use Prim.Native.Char.{code}
use Prim.Native.String.{String}
use cli_pos.Base.{
  ℕ, zero, suc, ◌+◌, ◌-◌, ◌*◌, ◌/◌, ◌%◌, ◌^◌, ◌≡◌, refl, Bool, true, false, ◌&&◌, ◌||◌, List, [],
  ◌∷◌, ◌++◌, leb, ltb, ◌==◌, if◌then◌else◌,
}
use cli_pos.Base.Int.{ℤ, pos, negsuc, sub_ℕ}
use cli_pos.Fault.{Result, ok, err, invalid_argument, out_of_range}

abbrev pub Text : Type 0
Text = List ℕ

-- The bytes of a literal, which is ASCII throughout the program.
abbrev pub codes : String → Text
codes String.[] = []
codes (String.◌∷◌ c s) = code c ∷ codes s

-- The integer that a byte stands for as a `char`, which is signed, moved up by 128: an order on
-- these numbers is the order on `char`.
abbrev pub char_rank : ℕ → ℕ
char_rank c = (c + 128) % 256

-- `isprint` on a `char`, in the C locale.
unfoldable pub is_print : ℕ → Bool
is_print c = leb 32 c && leb c 126

unfoldable pub is_digit : ℕ → Bool
is_digit c = leb b'0' c && leb c b'9'

unfoldable pub is_space : ℕ → Bool
is_space c = c == 32 || (leb 9 c && leb c 13)

-- Two texts with the same bytes.
unfoldable pub text_eq : Text → Text → Bool
text_eq [] [] = true
text_eq [] (d ∷ t) = false
text_eq (c ∷ s) [] = false
text_eq (c ∷ s) (d ∷ t) = c == d && text_eq s t

-- The decimal digits of a number; each round takes the last one, so `suc n` rounds are enough.
unfoldable pub print_digits : ℕ → ℕ → Text
print_digits zero n = []
print_digits (suc fuel) n = elim (ltb n 10) [
  | true ↦ (b'0' + n) ∷ []
  | false ↦ print_digits fuel (n / 10) ++ ((b'0' + n % 10) ∷ [])
]

unfoldable pub print_nat : ℕ → Text
unfolding print_digits
print_nat n = print_digits (suc n) n

-- std::to_string on an integer type.
unfoldable pub to_string : ℤ → Text
to_string (pos n) = print_nat n
to_string (negsuc n) = b'-' ∷ print_nat (suc n)

-- The number that the leading digits of a text make, with `n` read so far.
unfoldable pub read_digits : ℕ → Text → ℕ
unfolding is_digit
read_digits n [] = n
read_digits n (c ∷ s) = elim (is_digit c) [ true ↦ read_digits (n * 10 + (c - b'0')) s | false ↦ n ]

unfoldable pub starts_with_digit : Text → Bool
unfolding is_digit
starts_with_digit [] = false
starts_with_digit (c ∷ s) = is_digit c

unfoldable pub skip_space : Text → Text
unfolding is_space
skip_space [] = []
skip_space (c ∷ s) = elim (is_space c) [ true ↦ skip_space s | false ↦ c ∷ s ]

-- The magnitude behind the sign, in a type whose least value is `- limit`.
unfoldable pub read_magnitude : ℕ → Bool → Text → Result ℤ
unfolding read_digits starts_with_digit
read_magnitude limit minus s =
    let n = read_digits 0 s in
    if starts_with_digit s
    then (if minus
        then (if leb n limit then ok (sub_ℕ 0 n) else err out_of_range)
        else (if ltb n limit then ok (pos n) else err out_of_range))
    else err invalid_argument

unfoldable pub read_sign : ℕ → Text → Result ℤ
read_sign limit [] = err invalid_argument
read_sign limit (c ∷ s) =
    if c == b'-'
    then read_magnitude limit true s
    else (if c == b'+' then read_magnitude limit false s else read_magnitude limit false (c ∷ s))

-- std::stol: white space, a sign, digits, and anything behind them.
unfoldable pub stol : Text → Result ℤ
unfolding read_sign skip_space
stol s = read_sign (2 ^ 63) (skip_space s)

-- std::stoi.
unfoldable pub stoi : Text → Result ℤ
unfolding read_sign skip_space
stoi s = read_sign (2 ^ 31) (skip_space s)

to_string_runs : to_string (pos 9_780_201) ++ to_string (negsuc 4) ≡ codes "9780201-5"
unfolding to_string print_nat
to_string_runs = refl

stol_reads : stol (codes " -12.5") ≡ ok (negsuc 11)
unfolding stol read_magnitude
stol_reads = refl

stol_refuses : stol (codes ".5") ≡ err invalid_argument
unfolding stol read_magnitude
stol_refuses = refl

stol_overflow : stol (codes "9223372036854775808") ≡ err out_of_range
unfolding stol read_magnitude
stol_overflow = refl
