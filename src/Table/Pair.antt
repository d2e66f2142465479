-- ===== src/Table/Pair.antt =====
-- The color pairs of src/h_files/colors.h.
use cli_pos.Base.Int.{ℤ, pos}

abbrev pub white : ℤ
white = pos 127

abbrev pub money : ℤ
money = pos 128

abbrev pub tax : ℤ
tax = pos 129

abbrev pub discount : ℤ
discount = pos 130

abbrev pub upc : ℤ
upc = pos 131

abbrev pub qty : ℤ
qty = pos 132

abbrev pub profit : ℤ
profit = pos 133

abbrev pub pts : ℤ
pts = pos 134

abbrev pub stock_pair : ℤ
stock_pair = pos 135

abbrev pub selection : ℤ
selection = pos 136

abbrev pub black : ℤ
black = pos 137
