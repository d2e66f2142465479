-- ===== src/Progress/Screen.antt =====
-- The calls of src/draw_product_list.cpp and those of src/main.cpp that clear the lines of messages.
use cli_pos.Base.{ℕ, suc, List, [], ◌∷◌, Bool, true, false}
use cli_pos.Base.Int.{ℤ}
use cli_pos.Product.{Product}
use cli_pos.Text.{Text}
use cli_pos.World.Double.{Double}
use cli_pos.World.Pqxx.{Pqxx}
use cli_pos.World.State.{BasketProduct, Tab}
use cli_pos.Table.Head.{
  Columns, print_colored, print_table_head_section, clear_lines, clear_messages, draw_head, section,
}
use cli_pos.Table.Row.{
  pad_size, text_cell, nr_cell, double_cell, qty_cell, draw_cells, draw_total, draw_rows,
  draw_product_list,
}
use cli_pos.Progress.Rules.{Quiet, throw-Quiet, return-Quiet}
use cli_pos.Progress.Results.{undefined-IsReal}
use cli_pos.Progress.Calls.{quiet}
use cli_pos.Progress.Database.{get_product_data-Quiet}

module _ {D : Type 0} {I : List (BasketProduct D) → Type 0} {C : Type 0} {k : ℕ} where
  print_colored-Quiet : (color : ℤ) (t : Text) → Quiet I {C = C} k (print_colored color t)
  unfolding print_colored
  print_colored-Quiet color t = search quiet depth 9

  head_section-Quiet :
      (name : Text) (size color : ℤ) → Quiet I {C = C} k (print_table_head_section name size color)
  unfolding print_table_head_section
  head_section-Quiet name size color = search (quiet, print_colored-Quiet) depth 9

  clear_lines-Quiet : (lines rows : ℤ) → Quiet I {C = C} k (clear_lines lines rows)
  unfolding clear_lines
  clear_lines-Quiet lines rows = search quiet depth 12

  pub clear_messages-Quiet : Quiet I {C = C} k clear_messages
  unfolding clear_messages
  clear_messages-Quiet = search (quiet, clear_lines-Quiet)

  section-Quiet :
      (b : Bool) (name : Text) (size color : ℤ) → Quiet I {C = C} k (section b name size color)
  section-Quiet true name size color = head_section-Quiet name size color
  section-Quiet false name size color = return-Quiet tt

  draw_head-Quiet : (tab : Tab) (c : Columns) → Quiet I {C = C} k (draw_head tab c)
  unfolding draw_head
  draw_head-Quiet tab c = search (quiet, section-Quiet) depth 30

  pub pad_size-Quiet : (n : ℕ) → Quiet I {C = C} k (pad_size n)
  unfolding pad_size
  pad_size-Quiet n = search (quiet, throw-Quiet, undefined-IsReal)

  text_cell-Quiet : (width : ℤ) (t : Text) → Quiet I {C = C} k (text_cell width t)
  unfolding text_cell
  text_cell-Quiet width t = search (quiet, pad_size-Quiet)

  nr_cell-Quiet : (width : ℕ) (t : Text) (n : ℕ) → Quiet I {C = C} k (nr_cell width t n)
  unfolding nr_cell
  nr_cell-Quiet width t n = search quiet

module _ {D : Type 0} {I : List (BasketProduct D) → Type 0} {C : Type 0} ⦃d : Double D⦄
    {k : ℕ} where
  double_cell-Quiet : (width : ℕ) (x : D) → Quiet I {C = C} k (double_cell width x)
  unfolding double_cell
  double_cell-Quiet width x = nr_cell-Quiet width _ _

  qty_cell-Quiet : (code : ℤ) → Quiet I {C = C} k (qty_cell code)
  unfolding qty_cell
  qty_cell-Quiet code = search (quiet, double_cell-Quiet, throw-Quiet, undefined-IsReal)

  draw_cells-Quiet :
      (max_name_length : ℤ) (c : Columns) (p : Product D)
      → Quiet I {C = C} k (draw_cells max_name_length c p)
  unfolding draw_cells
  draw_cells-Quiet max_name_length c p =
      search (quiet, text_cell-Quiet, nr_cell-Quiet, double_cell-Quiet, qty_cell-Quiet) depth 30

  draw_total-Quiet : (width : ℤ) (total : D) → Quiet I {C = C} k (draw_total width total)
  unfolding draw_total
  draw_total-Quiet width total = search (quiet, pad_size-Quiet) depth 9

module _ {D : Type 0} {I : List (BasketProduct D) → Type 0} {C : Type 0} ⦃d : Double D⦄
    ⦃q : Pqxx C D⦄ {k : ℕ} where
  draw_rows-Quiet :
      (i : ℕ) (selection max_name_length : ℤ) (c : Columns) (list : List ℤ)
      → Quiet I {C = C} k (draw_rows i selection max_name_length c list)
  unfolding draw_rows
  draw_rows-Quiet i selection max_name_length c [] = return-Quiet tt
  draw_rows-Quiet i selection max_name_length c (code ∷ list) =
      let rest = draw_rows-Quiet (suc i) selection max_name_length c list in
      search (quiet, get_product_data-Quiet, draw_cells-Quiet) depth 12

  pub draw_product_list-Quiet :
      (list : List ℤ) (selection : ℤ) (c : Columns) (total : D)
      → Quiet I {C = C} k (draw_product_list list selection c total)
  unfolding draw_product_list
  draw_product_list-Quiet list selection c total =
      search (quiet, draw_head-Quiet, draw_rows-Quiet, draw_total-Quiet) depth 9
