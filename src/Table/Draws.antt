-- ===== src/Table/Draws.antt =====
-- draw_product_list of src/main.cpp : the calls that only draw.
use cli_pos.Shown.Info
use cli_pos.Base.{ℕ, ◌+◌, ◌<◌, ◌≤◌, ◌^◌, ◌≡◌, Bool, true, false, arith, length, ltb}
use cli_pos.Base.Int.{ℤ, pos, ◌-ℤ◌}
use cli_pos.Product.{Product, sold_by_text, Mesurments}
use cli_pos.Table.Head.{Columns, print_colored, print_table_head_section, section, draw_head}
use cli_pos.Table.Row.{nr_length, pad_size, text_cell, nr_cell, double_cell, draw_total}
use cli_pos.Text.{Text}
use cli_pos.Words.{to_size, size_sub}
use cli_pos.World.Double.{Double}
use cli_pos.World.Drawing.{
  IsDrawing, seq-IsDrawing, draw-IsDrawing, return-IsDrawing, print_times-IsDrawing, drawing,
}
use cli_pos.World.State.{Tab}

pad_lem : (a b : ℕ) → b ≤ a → a < 2 ^ 31 → ltb (size_sub a b) (2 ^ 31) ≡ true
unfolding size_sub
pad_lem a b h l = ground arith

module _ {C D : Type 0} where
  print_colored-IsDrawing :
      (color : ℤ) (t : Text) → IsDrawing {C = C} {D = D} (print_colored color t)
  unfolding print_colored
  print_colored-IsDrawing color t = search drawing depth 9

  head_section-IsDrawing :
      (name : Text) (size color : ℤ)
      → IsDrawing {C = C} {D = D} (print_table_head_section name size color)
  unfolding print_table_head_section
  head_section-IsDrawing name size color = search (drawing, print_colored-IsDrawing) depth 9

  section-IsDrawing :
      (b : Bool) (name : Text) (size color : ℤ)
      → IsDrawing {C = C} {D = D} (section b name size color)
  section-IsDrawing true name size color = head_section-IsDrawing name size color
  section-IsDrawing false name size color = return-IsDrawing

  pub draw_head-IsDrawing : (tab : Tab) (c : Columns) → IsDrawing {C = C} {D = D} (draw_head tab c)
  unfolding draw_head
  draw_head-IsDrawing tab c = search (drawing, section-IsDrawing) depth 30

  pad_size-IsDrawing :
      (a b : ℕ) → b ≤ a → a < 2 ^ 31 → IsDrawing {C = C} {D = D} (pad_size (size_sub a b))
  unfolding pad_size
  pad_size-IsDrawing a b h l = rw (pad_lem a b h l) (print_times-IsDrawing _ _)

  pub text_cell-IsDrawing :
      (width : ℤ) (t : Text)
      → length t ≤ to_size width
      → to_size width < 2 ^ 31
      → IsDrawing {C = C} {D = D} (text_cell width t)
  unfolding text_cell
  text_cell-IsDrawing width t h l = search (drawing, pad_size-IsDrawing)

  pub nr_cell-IsDrawing :
      (width : ℕ) (t : Text) (n : ℕ) → IsDrawing {C = C} {D = D} (nr_cell width t n)
  unfolding nr_cell
  nr_cell-IsDrawing width t n = search drawing

  pub sold_by-IsDrawing :
      (s : Mesurments) → IsDrawing {C = C} {D = D} (text_cell (pos 7) (sold_by_text s))
  unfolding sold_by_text
  sold_by-IsDrawing cli_pos.Product.piece =
      text_cell-IsDrawing (pos 7) _ (omega arith) (omega arith)
  sold_by-IsDrawing cli_pos.Product.length =
      text_cell-IsDrawing (pos 7) _ (omega arith) (omega arith)
  sold_by-IsDrawing cli_pos.Product.weight =
      text_cell-IsDrawing (pos 7) _ (omega arith) (omega arith)

module _ {D : Type 0} ⦃d : Double D⦄ where
  -- The total and its label fit the last line.
  abbrev pub TotalFits : ℤ → D → Type 0
  TotalFits width total =
      let n = to_size (width -ℤ pos 3) in
      (length Info.total + nr_length (d.truncate total) true ≤ n) × (n < 2 ^ 31)

module _ {C D : Type 0} ⦃d : Double D⦄ where
  pub double_cell-IsDrawing : (width : ℕ) (x : D) → IsDrawing {C = C} {D = D} (double_cell width x)
  unfolding double_cell
  double_cell-IsDrawing width x = nr_cell-IsDrawing width _ _

  pub draw_total-IsDrawing :
      (width : ℤ) (total : D)
      → TotalFits width total
      → IsDrawing {C = C} {D = D} (draw_total width total)
  unfolding draw_total
  draw_total-IsDrawing width total h =
      seq-IsDrawing (draw-IsDrawing _)
        (seq-IsDrawing (pad_size-IsDrawing _ _ h.0 h.1) (search drawing))
