-- ===== src/Words.antt =====
-- Conversions between the integer types of the program (`int` of 32 bits, `long int` and `size_t` of
-- 64 bits), with their wrap-around.
use cli_pos.Base.{ℕ, ◌+◌, ◌-◌, ◌%◌, ◌^◌, ltb, if◌then◌else◌}
use cli_pos.Base.Int.{ℤ, pos, negsuc}

-- An integer read as a `size_t`.
abbrev pub to_size : ℤ → ℕ
to_size (pos n) = n
to_size (negsuc n) = 2 ^ 64 - 1 - n

-- `a - b` in `size_t`.
unfoldable pub size_sub : ℕ → ℕ → ℕ
size_sub a b = (a + 2 ^ 64 - b) % 2 ^ 64

-- An integer converted to an `int`.
unfoldable pub to_int : ℤ → ℤ
to_int (pos n) = let m = n % 2 ^ 32 in if ltb m (2 ^ 31) then pos m else negsuc (2 ^ 32 - 1 - m)
to_int (negsuc n) = let m = n % 2 ^ 32 in if ltb m (2 ^ 31) then negsuc m else pos (2 ^ 32 - 1 - m)

-- The rounds of `for (i = 0; i < n; i++)` with `int i`.
abbrev pub count : ℤ → ℕ
count (pos n) = n
count (negsuc n) = 0

-- An integer converted to a `short int`.
unfoldable pub to_short : ℤ → ℤ
to_short (pos n) = let m = n % 2 ^ 16 in if ltb m (2 ^ 15) then pos m else negsuc (2 ^ 16 - 1 - m)
to_short (negsuc n) =
    let m = n % 2 ^ 16 in if ltb m (2 ^ 15) then negsuc m else pos (2 ^ 16 - 1 - m)
