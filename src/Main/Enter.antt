-- ===== src/Main/Enter.antt =====
-- Enter on a product of the list, in the loop of src/main.cpp.
use cli_pos.Base.{◌≡◌, ap, ◌∙◌, List, leb, length, if◌then◌else◌}
use cli_pos.Base.Int.{ℤ}
use cli_pos.Database.Query.{finish}
use cli_pos.Database.Row.{RowTexts, Stocks, product-Stocks}
use cli_pos.Fault.{answer, ok}
use cli_pos.Product.{Product}
use cli_pos.Window.{at, to_top}
use cli_pos.Words.{to_size}
use cli_pos.World.Double.{Double}
use cli_pos.World.Pqxx.{Pqxx}
use cli_pos.World.State.{World, View, BasketProduct, products, basket, done}
use cli_pos.Main.Keys.{Garbage, put_in_basket, enter_on, key_enter_product, reset_past_basket}
use cli_pos.Main.Scan.{with_one}
use cli_pos.Database.Transaction.{begin_lem, commit_lem}

-- The window on a basket: at the top, if the place of the selection is past its end.
abbrev pub past_end : {D : Type 0} → List (BasketProduct D) → View → View
past_end cart v = if leb (length cart) (to_size v.indexed_selection) then to_top v else v

module _ {C D : Type 0} ⦃d : Double D⦄ ⦃q : Pqxx C D⦄ (g : Garbage) (p : Product D)
    (t : RowTexts) where
  pub put_in_basket_lem :
      (w : World C D)
      → Stocks d q p t w.conn
      → put_in_basket g p.code w ≡ done tt (record w { basket = with_one g p t w })
  unfolding put_in_basket
  put_in_basket_lem w s = rw (product-Stocks p t w s).1

  enter_lem :
      (list : List ℤ) (w : World C D) (opened committed : C)
      → at list w.view.selection ≡ ok p.code
      → q.begin w.conn ≡ answer opened
      → Stocks d q p t opened
      → q.commit opened ≡ answer committed
      → enter_on products g list w
        ≡ done tt (record w {
          conn = q.finish committed;
          basket = with_one g p t w;
          current_tab = basket;
          view = past_end (with_one g p t w) w.view;
        })
  unfolding enter_on reset_past_basket finish
  enter_lem list w opened committed l b s c =
      let w₁ = record w { conn = opened } in
      let w₂ = record w₁ { basket = with_one g p t w } in
      rw (begin_lem w opened b, l, put_in_basket_lem w₁ s, commit_lem w₂ committed c)

  -- On the tab PRODUCTS, where the selected entry of the list is the code of a product of the table,
  -- Enter makes of the basket what add_product_to_basket makes of it with one of that product, and shows
  -- it, from the top if the place of the selection is past its end; nothing else changes but the
  -- connection, whose transaction is committed.
  pub key_enter_adds :
      (list : List ℤ) (w : World C D) (opened committed : C)
      → w.current_tab ≡ products
      → at list w.view.selection ≡ ok p.code
      → q.begin w.conn ≡ answer opened
      → Stocks d q p t opened
      → q.commit opened ≡ answer committed
      → let cart = with_one g p t w in
        key_enter_product g list w
        ≡ done tt (record w {
          conn = q.finish committed;
          basket = cart;
          current_tab = basket;
          view = past_end cart w.view;
        })
  unfolding key_enter_product
  key_enter_adds list w opened committed tab l b s c =
      ap (λ tab. enter_on tab g list w) tab ∙ enter_lem list w opened committed l b s c
