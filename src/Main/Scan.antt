-- ===== src/Main/Scan.antt =====
-- A scanned product, from the keys that the scanner types to the basket: the barcode prefix in the loop
-- of src/main.cpp.
use cli_pos.Base.{ℕ, ◌<◌, ◌^◌, ◌≡◌, refl, false, List, ◌∷◌, ◌++◌, length}
use cli_pos.Base.Int.{pos}
use cli_pos.Basket.{add_product_to_basket}
use cli_pos.Database.Query.{finish}
use cli_pos.Database.Transaction.{begin_lem, commit_lem}
use cli_pos.Database.Row.{RowTexts, Stocks, product-Stocks}
use cli_pos.Fault.{answer, ok}
use cli_pos.Input.{remove_non_nr}
use cli_pos.Input.Bound.{AllTyped}
use cli_pos.Product.{Product}
use cli_pos.Text.{stol}
use cli_pos.Window.{reset_past}
use cli_pos.World.Double.{Double}
use cli_pos.World.Pqxx.{Pqxx}
use cli_pos.World.State.{World, Tab, products, basket, stock, BasketProduct, Draw, done}
use cli_pos.World.Monad.{key_enter}
use cli_pos.Main.Typed.{read_lem}
use cli_pos.Main.Show.{current_list_size, list_size_on}
use cli_pos.Main.Keys.{Garbage, put_in_basket, scan_on, key_scan}

-- The tabs on which a scanned product is put into the basket.
abbrev pub Sells : Tab → Type 0
Sells products = Unit {0}
Sells basket = Unit {0}
Sells stock = ⊥

module _ {C D : Type 0} ⦃q : Pqxx C D⦄ where
  pub basket_size_lem :
      (w : World C D)
      → w.current_tab ≡ basket
      → current_list_size w ≡ done (pos (length w.basket)) w
  unfolding current_list_size list_size_on
  basket_size_lem w e = rw e

module _ {C D : Type 0} ⦃d : Double D⦄ ⦃q : Pqxx C D⦄ (g : Garbage) (p : Product D)
    (t : RowTexts) where
  -- The basket with one more of the product.
  abbrev pub with_one : World C D → List (BasketProduct D)
  with_one w = add_product_to_basket g.flag p (d.of_int (pos 1)) w.basket

  scan_lem :
      (tab : Tab) (w : World C D)
      → Sells tab
      → Stocks d q p t w.conn
      → scan_on tab g p.code w ≡ done tt (record w { basket = with_one w; current_tab = basket })
  unfolding scan_on put_in_basket
  scan_lem products w h s = let (e, f) = product-Stocks p t w s in rw (e, f)
  scan_lem basket w h s = let (e, f) = product-Stocks p t w s in rw (e, f)
  scan_lem stock w h s = absurd h

  -- On the tabs PRODUCTS and BASKET, where the scanner types the code of a product of the table with
  -- printable keys and Enter, the basket becomes what add_product_to_basket makes of it with one of that
  -- product, and is shown, from the top if the selection is past its end; nothing else changes but the
  -- screen, the keys that are taken and the connection, whose transaction is committed.
  pub key_scan_adds :
      (ks rest : List ℕ) (w : World C D) (opened committed : C)
      → Sells w.current_tab
      → AllTyped ks
      → length ks < 2 ^ 64
      → w.keys ≡ ks ++ (key_enter ∷ rest)
      → stol (remove_non_nr ks) ≡ ok p.code
      → q.begin w.conn ≡ answer opened
      → Stocks d q p t opened
      → q.commit opened ≡ answer committed
      → (scr : List Draw) × (key_scan g w
          ≡ done tt (record w {
            keys = rest;
            screen = scr;
            conn = q.finish committed;
            basket = with_one w;
            current_tab = basket;
            view = reset_past w.view.selection (pos (length (with_one w))) w.view;
          }))
  unfolding key_scan finish
  key_scan_adds ks rest w opened committed sells a l e n b s c =
      let (scr, r) = read_lem false ks rest w a l e in
      let w₁ = record w { keys = rest; screen = scr } in
      let w₂ = record w₁ { conn = opened } in
      let w₃ = record w₂ { basket = with_one w; current_tab = basket } in
      let w₄ = record w₃ {
        view = reset_past w.view.selection (pos (length (with_one w))) w.view;
      } in
      (
        scr,
        rw (
          r,
          n,
          begin_lem w₁ opened b,
          scan_lem w.current_tab w₂ sells s,
          basket_size_lem w₃ refl,
          commit_lem w₄ committed c,
        ),
      )
