-- ===== src/Table/Row.antt =====
-- The rows of a table and its last line, and the whole of draw_product_list.
use cli_pos.Shown.Info
use cli_pos.Base.{
  ℕ, suc, ◌+◌, ◌-◌, ◌^◌, Bool, true, false, List, [], ◌∷◌, ltb, length, if◌then◌else◌,
}
use cli_pos.Base.Int.{ℤ, pos, ◌-ℤ◌, eq_ℤ}
use cli_pos.Basket.Quantity.{quantity_of}
use cli_pos.Database.Query.{get_product_data}
use cli_pos.Fault.{undefined}
use cli_pos.Product.{Product, sold_by_text}
use cli_pos.Text.{Text, codes, to_string}
use cli_pos.Words.{to_size, size_sub, count}
use cli_pos.World.Double.{Double}
use cli_pos.World.Pqxx.{Pqxx}
use cli_pos.World.State.{
  color_on, color_off, max_code_length, max_price_length, max_product_quanity_length,
  max_sold_by_name_length, nr_decimal_points,
}
use cli_pos.World.Monad.{
  M, ◌>>=◌, ◌>>◌, return, throw, when, draw, printw, print_times, with_world, maybe,
}
use cli_pos.Table.Head.{Columns, table_width, draw_head}
use cli_pos.Table.Pair

-- nr_length, of an integer and of a `double` that is converted to a `long int`.
unfoldable pub nr_length : ℤ → Bool → ℕ
nr_length number is_float =
    if is_float
    then length (to_string number) + nr_decimal_points + 1
    else length (to_string number)

module _ {C D : Type 0} where
  -- `for (j = 0; j < n; j++) printw(" ")` with `int j` against a size_t: where the difference wrapped
  -- round, `j` overflows.
  unfoldable pub pad_size : ℕ → M C D (Unit {0})
  pad_size n = if ltb n (2 ^ 31) then print_times n (codes " ") else throw undefined

  -- A text in a column, and its bar.
  unfoldable pub text_cell : ℤ → Text → M C D (Unit {0})
  text_cell width t = do
    printw t
    pad_size (size_sub (to_size width) (length t))
    printw (codes "|")

  -- A number in a column: the difference is an `int`, and where it is negative nothing is padded.
  unfoldable pub nr_cell : ℕ → Text → ℕ → M C D (Unit {0})
  nr_cell width t n = do printw t; print_times (width - n) (codes " "); printw (codes "|")

module _ {C D : Type 0} ⦃d : Double D⦄ where
  unfoldable pub double_cell : ℕ → D → M C D (Unit {0})
  double_cell width x = nr_cell width (d.print_fixed 2 x) (nr_length (d.truncate x) true)

  -- The quantity of the first entry of the basket with the code; with none, `basket[basket.size()]`
  -- is read.
  unfoldable pub qty_cell : ℤ → M C D (Unit {0})
  qty_cell code = with_world λ w.
      maybe (quantity_of code w.basket) (throw undefined) (double_cell max_product_quanity_length)

  unfoldable pub draw_cells : ℤ → Columns → Product D → M C D (Unit {0})
  draw_cells max_name_length c p = do
    printw (codes "|")
    when c.name (text_cell max_name_length p.name)
    when c.code (nr_cell max_code_length (to_string p.code) (nr_length p.code false))
    when c.price (double_cell max_price_length p.price)
    when c.discount (nr_cell 3 (to_string p.discount) (nr_length p.discount false))
    when c.price_after_discount (double_cell max_price_length p.price_after_discount)
    when c.tax (printw (b' ' ∷ p.tax ∷ codes " |"))
    when c.qty (qty_cell p.code)
    when c.stock (double_cell max_product_quanity_length p.stock)
    when c.profit (double_cell max_price_length p.profit)
    when c.price_to_stock (double_cell max_price_length p.price_to_stock)
    when c.sold_by (text_cell (pos max_sold_by_name_length) (sold_by_text p.sold_by))
    printw (codes "\n")

  unfoldable pub draw_total : ℤ → D → M C D (Unit {0})
  draw_total width total = do
    printw (b'|' ∷ Info.total)
    pad_size (
        size_sub (to_size (width -ℤ pos 3)) (length Info.total + nr_length (d.truncate total) true))
    printw (d.print_fixed 2 total)
    printw (codes " |\n")
    print_times (count width) (codes "-")

module _ {C D : Type 0} ⦃d : Double D⦄ ⦃q : Pqxx C D⦄ where
  -- Row `i` and those below it; the selected one is drawn in other colors.
  unfoldable pub draw_rows : ℕ → ℤ → ℤ → Columns → List ℤ → M C D (Unit {0})
  draw_rows i selection max_name_length c [] = return tt
  draw_rows i selection max_name_length c (code ∷ list) = do
    product ← get_product_data code
    when (eq_ℤ (pos i) selection) (draw (color_on Pair.selection))
    draw_cells max_name_length c product
    when (eq_ℤ (pos i) selection) (draw (color_off Pair.selection))
    print_times (count (table_width max_name_length c)) (codes "-")
    printw (codes "\n")
    draw_rows (suc i) selection max_name_length c list

  unfoldable pub draw_product_list : List ℤ → ℤ → Columns → D → M C D (Unit {0})
  draw_product_list list selection c total = with_world λ w.
      let name_length = w.settings.max_name_length in
      do
        draw_head w.current_tab c
        draw_rows 0 selection name_length c list
        when c.total (draw_total (table_width name_length c) total)
