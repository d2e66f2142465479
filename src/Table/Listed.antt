-- ===== src/Table/Listed.antt =====
-- draw_product_list of src/main.cpp on products that stand in the table of the database.
use mathlib.Core.Path.{subst}
use cli_pos.Base.{
  ℕ, suc, ◌<◌, ◌≤◌, ◌^◌, ◌≡◌, refl, ap, Bool, true, false, List, [], ◌∷◌, some, length, sym, ◌∙◌,
}
use cli_pos.Base.Int.{ℤ}
use cli_pos.Basket.Quantity.{quantity_of}
use cli_pos.Database.Query.{get_product_data}
use cli_pos.Database.Row.{RowTexts, Stocks, product-Stocks}
use cli_pos.Product.{Product}
use cli_pos.Table.Head.{Columns, table_width}
use cli_pos.Table.Row.{qty_cell, draw_cells, draw_rows, draw_product_list}
use cli_pos.Words.{to_size}
use cli_pos.World.Double.{Double}
use cli_pos.World.Drawing.{
  IsDrawing, Draws, draw-IsDrawing, when-IsDrawing, return-IsDrawing, print_times-IsDrawing,
}
use cli_pos.World.Monad.{M, ◌>>=◌, ◌>>◌, and_then, draw, when}
use cli_pos.World.Pqxx.{Pqxx}
use cli_pos.World.State.{World, Outcome, Draw, BasketProduct}
use cli_pos.Table.Draws.{
  draw_head-IsDrawing, text_cell-IsDrawing, nr_cell-IsDrawing, sold_by-IsDrawing,
  double_cell-IsDrawing, draw_total-IsDrawing, TotalFits,
}

-- A product of the table, with the row that the server sends for it.
pub record Listed (D : Type 0) : Type 0 where
  pub product : Product D
  pub texts : RowTexts

abbrev pub codes_listed : {D : Type 0} → List (Listed D) → List ℤ
codes_listed [] = []
codes_listed (x ∷ xs) = x.product.code ∷ codes_listed xs

module _ {C D : Type 0} ⦃d : Double D⦄ ⦃q : Pqxx C D⦄ (c : C) (cart : List (BasketProduct D)) where
  -- With that connection and that basket the call only draws.
  pub record DrawsAt (m : M C D (Unit {0})) : Type 0 where
    pub drawn_at : (w : World C D) → w.conn ≡ c → w.basket ≡ cart → Draws w (m w)

  -- A product whose row can be drawn: its name fits the column, and its quantity is known where it is
  -- shown.
  pub record IsDrawable (m : ℤ) (columns : Columns) (x : Listed D) : Type 0 where
    pub stocked : Stocks d q x.product x.texts c
    pub name_fits : length x.product.name ≤ to_size m
    pub quantity : D
    pub known : columns.qty ≡ true → quantity_of x.product.code cart ≡ some quantity

  abbrev pub AllDrawable : ℤ → Columns → List (Listed D) → Type 0
  AllDrawable m columns [] = Unit {0}
  AllDrawable m columns (x ∷ xs) = IsDrawable m columns x × AllDrawable m columns xs

module _ {C D : Type 0} ⦃d : Double D⦄ ⦃q : Pqxx C D⦄ {c : C} {cart : List (BasketProduct D)} where
  drawing-DrawsAt : {m : M C D (Unit {0})} → IsDrawing m → DrawsAt c cart m
  drawing-DrawsAt p = record { drawn_at = λ w e f. p.drawn w }

  and_then-Draws :
      (w : World C D) (o : Outcome C D (Unit {0})) (m : M C D (Unit {0}))
      → Draws w o
      → w.conn ≡ c
      → w.basket ≡ cart
      → DrawsAt c cart m
      → Draws w (and_then o (λ _. m))
  and_then-Draws w o m (scr, e) g h p = rw e (p.drawn_at (record w { screen = scr }) g h)

  seq-DrawsAt :
      {m m' : M C D (Unit {0})} → DrawsAt c cart m → DrawsAt c cart m' → DrawsAt c cart (m >> m')
  seq-DrawsAt {m} {m'} p q = record {
    drawn_at = λ w e f. and_then-Draws w (m w) m' (p.drawn_at w e f) e f q;
  }

  when-DrawsAt :
      {m : M C D (Unit {0})} (b : Bool) → (b ≡ true → DrawsAt c cart m) → DrawsAt c cart (when b m)
  when-DrawsAt true p = record { drawn_at = λ w e f. (p refl).drawn_at w e f }
  when-DrawsAt false p = record { drawn_at = λ w e f. (w.screen, refl) }

  product-DrawsAt :
      (x : Listed D) (f : Product D → M C D (Unit {0}))
      → Stocks d q x.product x.texts c
      → DrawsAt c cart (f x.product)
      → DrawsAt c cart (get_product_data x.product.code >>= f)
  product-DrawsAt x f s p = record {
    drawn_at = λ w e g.
        let s' = subst (λ c. Stocks d q x.product x.texts c) (sym e) s in
        rw ((product-Stocks x.product x.texts w s').1) (p.drawn_at w e g);
  }

  qty_cell-DrawsAt :
      (code : ℤ) (x : D) → quantity_of code cart ≡ some x → DrawsAt c cart (qty_cell code)
  unfolding qty_cell
  qty_cell-DrawsAt code x h = record {
    drawn_at = λ w e f.
        let known : quantity_of code w.basket ≡ some x = ap (quantity_of code) f ∙ h in
        rw known ((double_cell-IsDrawing 8 x).drawn w);
  }

  then_draw : {m : M C D (Unit {0})} (x : Draw) → DrawsAt c cart m → DrawsAt c cart (draw x >> m)
  then_draw x p = seq-DrawsAt (drawing-DrawsAt (draw-IsDrawing x)) p

  -- A cell that only draws, if its column is shown.
  then_cell :
      {m m' : M C D (Unit {0})} (b : Bool)
      → IsDrawing m
      → DrawsAt c cart m'
      → DrawsAt c cart (when b m >> m')
  then_cell b p p' = seq-DrawsAt (drawing-DrawsAt (when-IsDrawing b p)) p'

  draw_cells-DrawsAt :
      (m : ℤ) (columns : Columns) (x : Listed D)
      → to_size m < 2 ^ 31
      → IsDrawable c cart m columns x
      → DrawsAt c cart (draw_cells m columns x.product)
  unfolding draw_cells
  draw_cells-DrawsAt m columns x l r = then_draw _ (
      then_cell columns.name (text_cell-IsDrawing m _ r.name_fits l) (
        then_cell columns.code (nr_cell-IsDrawing _ _ _) (
          then_cell columns.price (double_cell-IsDrawing _ _) (
            then_cell columns.discount (nr_cell-IsDrawing _ _ _) (
              then_cell columns.price_after_discount (double_cell-IsDrawing _ _) (
                then_cell columns.tax (draw-IsDrawing _) (
                  seq-DrawsAt
                    (when-DrawsAt columns.qty
                      (λ e. qty_cell-DrawsAt x.product.code r.quantity (r.known e)))
                    (then_cell columns.stock (double_cell-IsDrawing _ _) (
                      then_cell columns.profit (double_cell-IsDrawing _ _) (
                        then_cell columns.price_to_stock (double_cell-IsDrawing _ _) (
                          then_cell columns.sold_by (sold_by-IsDrawing x.product.sold_by)
                            (drawing-DrawsAt (draw-IsDrawing _)))))))))))))

  draw_rows-DrawsAt :
      (i : ℕ) (selection m : ℤ) (columns : Columns) (xs : List (Listed D))
      → to_size m < 2 ^ 31
      → AllDrawable c cart m columns xs
      → DrawsAt c cart (draw_rows i selection m columns (codes_listed xs))
  unfolding draw_rows
  draw_rows-DrawsAt i selection m columns [] l h = drawing-DrawsAt return-IsDrawing
  draw_rows-DrawsAt i selection m columns (x ∷ xs) l (r, h) = product-DrawsAt x _ r.stocked (
      then_cell _ (draw-IsDrawing _) (
        seq-DrawsAt (draw_cells-DrawsAt m columns x l r) (
          then_cell _ (draw-IsDrawing _) (
            seq-DrawsAt (drawing-DrawsAt (print_times-IsDrawing _ _))
              (then_draw _ (draw_rows-DrawsAt (suc i) selection m columns xs l h))))))

module _ {C D : Type 0} ⦃d : Double D⦄ ⦃q : Pqxx C D⦄ where
  -- On a connection that serves the products of the list, where each name fits the column, the column is
  -- of less than 2^31, each quantity is in the basket if the column of quantities is shown, and the total
  -- fits its line if it is shown, draw_product_list draws, and changes nothing else.
  pub draw_product_list-Draws :
      (xs : List (Listed D)) (selection : ℤ) (columns : Columns) (total : D) (w : World C D)
      → let m = w.settings.max_name_length in
        to_size m < 2 ^ 31
        → AllDrawable w.conn w.basket m columns xs
        → (columns.total ≡ true → TotalFits (table_width m columns) total)
        → Draws w (draw_product_list (codes_listed xs) selection columns total w)
  unfolding draw_product_list
  draw_product_list-Draws xs selection columns total w l h t =
      let m = w.settings.max_name_length in
      (seq-DrawsAt {c = w.conn} {cart = w.basket}
          (drawing-DrawsAt (draw_head-IsDrawing w.current_tab columns))
          (seq-DrawsAt (draw_rows-DrawsAt 0 selection m columns xs l h) (
            when-DrawsAt columns.total (λ e.
              drawing-DrawsAt
                (draw_total-IsDrawing (table_width m columns) total (t e)))))).drawn_at
        w refl refl
