-- ===== src/World/State.antt =====
-- The global variables and the devices, as one record.
use cli_pos.Base.{ℕ, Bool, true, false, List}
use cli_pos.Base.Int.{ℤ, pos}
use cli_pos.Fault.{Fault}
use cli_pos.Text.{Text, codes}

-- `int current_tab`, which only ever holds PRODUCTS, BASKET or STOCK.
pub data Tab : Type 0 where
  products basket stock : Tab

-- struct basket_product
pub record BasketProduct (D : Type 0) : Type 0 where
  pub code : ℤ
  pub quantity : D

-- Calls of ncurses that draw, with what they draw.
pub data Draw : Type 0 where
  -- printw, with its text formatted
  printed : Text → Draw
  -- addch; mvaddch is a move and an addch
  added : ℕ → Draw
  moved : ℤ → ℤ → Draw
  -- attron and attroff of COLOR_PAIR(n)
  color_on color_off : ℤ → Draw
  -- attron and attroff of A_REVERSE
  reverse_on reverse_off : Draw
  cleared refreshed : Draw
  -- initscr, start_color, cbreak, keypad, noecho, and endwin
  initialized colors_started unbuffered keypad_on unechoed ended : Draw
  -- init_color and init_pair
  color_made : ℤ → ℤ → ℤ → ℤ → Draw
  pair_made : ℤ → ℤ → ℤ → Draw

-- What ncurses answers: the size of the screen, whether it has colors, and where the cursor stands behind all that was
-- drawn (latest first).
pub record Terminal : Type 0 where
  -- the program's own LINES and ROWS, which getmaxyx fills, and ncurses' COLS
  pub lines : ℤ
  pub rows : ℤ
  pub cols : ℤ
  pub has_colors : Bool
  pub cursor : List Draw → ℤ × ℤ

-- The variables that the settings menu can change, and those of `namespace test`.
pub record Settings (D : Type 0) : Type 0 where
  pub max_name_length : ℤ
  pub nr_of_newlines : ℤ
  pub barcode_prefix : ℤ
  pub printer_device_file : Text
  pub shop_name : Text
  pub shop_code : Text
  pub shop_addres : Text
  pub monochrome_mode : Bool
  pub test_s : Text
  pub test_i : ℤ
  pub test_f : D
  pub test_b : Bool

-- struct visible_product_list, and the variables of main that outlive a round of its loop.
pub record View : Type 0 where
  pub start : ℤ
  pub stop : ℤ
  pub selection : ℤ
  pub indexed_selection : ℤ

pub record World (C D : Type 0) : Type 0 where
  pub terminal : Terminal
  -- the keys that getch will return
  pub keys : List ℕ
  -- what was drawn, latest first
  pub screen : List Draw
  pub conn : C
  -- whether open() of a device succeeds, and what was written to it, latest first
  pub device : Text → Bool
  pub printed : List (Text × Text)
  pub settings : Settings D
  pub basket : List (BasketProduct D)
  pub current_tab : Tab
  pub view : View
  pub total : D

-- How a call ends: with a value, or by a fault that no code of the program handles.
pub data Outcome (C D A : Type 0) : Type 0 where
  done : A → World C D → Outcome C D A
  stopped : Fault → World C D → Outcome C D A

-- The constants of definitions_and_variables.cpp that nothing assigns.
abbrev pub message_x : ℤ
message_x = pos 0

abbrev pub message_dist_from_bottom : ℕ
message_dist_from_bottom = 2

abbrev pub message_section_lines : ℕ
message_section_lines = 2

abbrev pub max_code_length : ℕ
max_code_length = 13

abbrev pub max_product_quanity_length : ℕ
max_product_quanity_length = 8

abbrev pub max_price_length : ℕ
max_price_length = 6

abbrev pub nr_decimal_points : ℕ
nr_decimal_points = 2

abbrev pub nr_of_selling_options : ℕ
nr_of_selling_options = 3

abbrev pub max_sold_by_name_length : ℕ
max_sold_by_name_length = 7

-- The initial values; `f` is the value of `test::f`, a float constant.
unfoldable pub initial_settings : {D : Type 0} → D → Settings D
initial_settings f = record {
  max_name_length = pos 31;
  nr_of_newlines = pos 15;
  barcode_prefix = pos b'#';
  printer_device_file = codes "/dev/usb/lp3";
  shop_name = codes "Product inc";
  shop_code = codes "123456789012";
  shop_addres = codes "random stret nr 56 random city, country";
  monochrome_mode = false;
  test_s = codes "Hello world";
  test_i = pos 10;
  test_f = f;
  test_b = true;
}
