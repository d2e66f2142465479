-- ===== src/Main/Color.antt =====
-- The numbers of the colors: those of ncurses, and those of src/h_files/colors.h, which the program
-- makes.
use cli_pos.Base.Int.{ℤ, pos}

abbrev pub black : ℤ
black = pos 0

abbrev pub red : ℤ
red = pos 1

abbrev pub green : ℤ
green = pos 2

abbrev pub yellow : ℤ
yellow = pos 3

abbrev pub magenta : ℤ
magenta = pos 5

abbrev pub cyan : ℤ
cyan = pos 6

abbrev pub white : ℤ
white = pos 7

abbrev pub orange : ℤ
orange = pos 9

abbrev pub price : ℤ
price = pos 10

abbrev pub stock : ℤ
stock = pos 11

abbrev pub real_black : ℤ
real_black = pos 12
