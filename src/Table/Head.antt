-- ===== src/Table/Head.antt =====
-- The line above a table, its head and its width.
use cli_pos.Shown.ProductCriteria
use cli_pos.Base.{
  ℕ, ◌/◌, ◌%◌, Bool, true, false, ◌&&◌, not, [], ◌∷◌, ◌++◌, ◌==◌, length, if◌then◌else◌,
}
use cli_pos.Base.Int.{ℤ, pos, negsuc, ◌+ℤ◌, ◌-ℤ◌}
use cli_pos.Table.Pair
use cli_pos.Text.{Text, codes}
use cli_pos.Window.{half}
use cli_pos.Words.{to_size, size_sub, to_int, count}
use cli_pos.World.State.{
  Tab, products, basket, stock, color_on, color_off, message_x, message_dist_from_bottom,
  max_code_length, max_price_length, max_product_quanity_length, max_sold_by_name_length,
}
use cli_pos.World.Monad.{M, ◌>>◌, return, draw, printw, print_times, move, with_world}

-- The parameters of draw_product_list that choose the columns.
pub record Columns : Type 0 where
  pub name : Bool
  pub code : Bool
  pub price : Bool
  pub discount : Bool
  pub price_after_discount : Bool
  pub tax : Bool
  pub qty : Bool
  pub stock : Bool
  pub profit : Bool
  pub price_to_stock : Bool
  pub sold_by : Bool
  pub total : Bool

-- text::info.tabs.
unfoldable pub tab_text : Tab → Text
tab_text products = codes "PRODUCTS"
tab_text basket = codes "BASKET"
tab_text stock = ProductCriteria.stock

abbrev pub column : Bool → ℤ → ℤ
column shown width = if shown then width +ℤ pos 1 else pos 0

unfoldable pub table_width : ℤ → Columns → ℤ
table_width max_name_length c =
    column c.name max_name_length
    +ℤ column c.code (pos max_code_length)
    +ℤ column c.price (pos max_price_length)
    +ℤ column c.discount (pos 3)
    +ℤ column c.price_after_discount (pos max_price_length)
    +ℤ column c.tax (pos 3)
    +ℤ column c.qty (pos max_product_quanity_length)
    +ℤ column c.stock (pos max_product_quanity_length)
    +ℤ column c.profit (pos max_price_length)
    +ℤ column c.price_to_stock (pos max_price_length)
    +ℤ column c.sold_by (pos max_sold_by_name_length)
    +ℤ pos 1

-- `int(table_width / 2.0 - length / 2.0)`: half of the difference, cut off towards 0.
unfoldable pub table_head_padding : ℤ → Tab → ℤ
table_head_padding width tab = half (width -ℤ pos (length (tab_text tab)))

abbrev pub is_odd : ℤ → Bool
is_odd (pos n) = n % 2 == 1
is_odd (negsuc n) = n % 2 == 0

-- `content_size % 2 != 1`, where `%` has the sign of its left side.
abbrev pub not_one_mod_two : ℤ → Bool
not_one_mod_two (pos n) = not (n % 2 == 1)
not_one_mod_two (negsuc n) = true

-- A name of odd length in a column of even width is made even.
unfoldable pub head_name : Text → ℤ → Text
head_name name content_size =
    if length name % 2 == 1 && not_one_mod_two content_size then name ++ (b' ' ∷ []) else name

-- `int((content_size - name.length()) / 2)`, the difference in size_t.
unfoldable pub head_padding : Text → ℤ → ℕ
head_padding name content_size =
    count (to_int (pos (size_sub (to_size content_size) (length name) / 2)))

module _ {C D : Type 0} where
  -- With colors, unless the terminal has none.
  unfoldable pub print_colored : ℤ → Text → M C D (Unit {0})
  print_colored color name = with_world λ w.
      if w.settings.monochrome_mode
      then printw name
      else (do draw (color_on color); printw name; draw (color_off color))

  unfoldable pub print_table_head_section : Text → ℤ → ℤ → M C D (Unit {0})
  print_table_head_section name content_size color = do
    let name' = head_name name content_size
    printw (codes "|")
    print_times (head_padding name' content_size) (codes " ")
    print_colored color name'
    print_times (head_padding name' content_size) (codes " ")

  -- The two lines of messages, on a screen of that many lines and columns.
  unfoldable pub clear_lines : ℤ → ℤ → M C D (Unit {0})
  clear_lines lines rows = do
    move (lines -ℤ pos message_dist_from_bottom) message_x
    print_times (count rows) (codes " ")
    printw (codes "\n")
    print_times (count rows) (codes " ")
    printw (codes "\n")
    move (lines -ℤ pos message_dist_from_bottom) message_x

  unfoldable pub clear_messages : M C D (Unit {0})
  clear_messages = with_world λ w. clear_lines w.terminal.lines w.terminal.rows

  abbrev pub section : Bool → Text → ℤ → ℤ → M C D (Unit {0})
  section true name size color = print_table_head_section name size color
  section false name size color = return tt

  unfoldable pub draw_head : Tab → Columns → M C D (Unit {0})
  draw_head tab c = with_world λ w.
      let name_length = w.settings.max_name_length in
      let width = table_width name_length c in
      let padding = count (table_head_padding width tab) in
      do
        print_times padding (codes "-")
        printw (tab_text tab)
        print_times padding (codes "-")
        print_times (if is_odd width then 1 else 0) (codes "-")
        printw (codes "\n")
        section c.name ProductCriteria.name name_length Pair.white
        section c.code ProductCriteria.code (pos max_code_length) Pair.upc
        section c.price ProductCriteria.price (pos max_price_length) Pair.money
        section c.discount ProductCriteria.discount_short (pos 3) Pair.discount
        section c.price_after_discount ProductCriteria.price_after_dis (pos max_price_length)
            Pair.discount
        section c.tax ProductCriteria.tax (pos 3) Pair.tax
        section c.qty ProductCriteria.quantity_short (pos max_product_quanity_length) Pair.qty
        section c.stock ProductCriteria.stock (pos max_product_quanity_length) Pair.stock_pair
        section c.profit ProductCriteria.profit (pos max_price_length) Pair.profit
        section c.price_to_stock ProductCriteria.price_to_stock (pos max_price_length) Pair.pts
        section c.sold_by ProductCriteria.sold_by (pos max_sold_by_name_length) Pair.white
        printw (codes "|\n")
        print_times (count width) (codes "-")
        printw (codes "\n")
