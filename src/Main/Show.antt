-- ===== src/Main/Show.antt =====
-- The first part of a round: what is loaded and drawn before a key is read.
use cli_pos.Base.{ℕ, suc, true, false, List, [], ◌∷◌, length, map, if◌then◌else◌}
use cli_pos.Base.Int.{ℤ, pos, ◌+ℤ◌, ltb_ℤ}
use cli_pos.Database.Query.{begin, commit, stock_size, code_list, get_product_data}
use cli_pos.Fault.{undefined}
use cli_pos.Table.Head.{Columns}
use cli_pos.Table.Row.{draw_product_list}
use cli_pos.Window.{max_products_nr, set_stop, slice, geb_ℤ}
use cli_pos.World.Double.{Double}
use cli_pos.World.Pqxx.{Pqxx}
use cli_pos.World.State.{View, Tab, products, basket, stock, BasketProduct, done}
use cli_pos.World.Monad.{M, ◌>>=◌, ◌>>◌, return, throw, lift, when, clear, with_world}

abbrev pub columns_of : Tab → Columns
columns_of products = record {
  name = true;
  code = true;
  price = true;
  discount = true;
  price_after_discount = false;
  tax = true;
  qty = false;
  stock = false;
  profit = false;
  price_to_stock = false;
  sold_by = false;
  total = false;
}
columns_of basket = record {
  name = true;
  code = true;
  price = true;
  discount = true;
  price_after_discount = true;
  tax = true;
  qty = true;
  stock = false;
  profit = false;
  price_to_stock = false;
  sold_by = true;
  total = true;
}
columns_of stock = record {
  name = true;
  code = true;
  price = true;
  discount = true;
  price_after_discount = false;
  tax = true;
  qty = false;
  stock = true;
  profit = true;
  price_to_stock = true;
  sold_by = true;
  total = false;
}

abbrev pub codes_of : {D : Type 0} → List (BasketProduct D) → List ℤ
codes_of = map (λ b. b.code)

module _ {C D : Type 0} where
  abbrev pub set_view : (View → View) → M C D (Unit {0})
  set_view f w = done tt (record w { view = f w.view })

  abbrev pub set_tab : Tab → M C D (Unit {0})
  set_tab tab w = done tt (record w { current_tab = tab })

  abbrev pub set_total : D → M C D (Unit {0})
  set_total total w = done tt (record w { total = total })

module _ {C D : Type 0} ⦃q : Pqxx C D⦄ where
  unfoldable pub list_size_on : Tab → M C D ℤ
  list_size_on basket = with_world λ w. return (pos (length w.basket))
  list_size_on products = stock_size
  list_size_on stock = stock_size

  unfoldable pub current_list_size : M C D ℤ
  current_list_size = with_world λ w. list_size_on w.current_tab

  -- The codes on the screen: of all products, or of the basket.
  unfoldable pub visible_on : Tab → List ℤ → View → M C D (List ℤ)
  visible_on basket product_codes v = with_world λ w. lift (slice (codes_of w.basket) v)
  visible_on products product_codes v = lift (slice product_codes v)
  visible_on stock product_codes v = lift (slice product_codes v)

  -- The end of the window, on a screen with room for `most` entries.
  unfoldable pub set_most : ℤ → M C D (Unit {0})
  set_most most = do
    size ← current_list_size
    (if geb_ℤ most size
        then (do size' ← current_list_size; set_view λ v. record v { stop = size' })
        else set_view (set_stop most size))

  unfoldable pub calculate_visible_product_list : M C D (List ℤ)
  calculate_visible_product_list = do
    with_world λ w. set_most (max_products_nr w.terminal.lines w.current_tab)
    product_codes ← code_list
    with_world λ w. visible_on w.current_tab product_codes w.view

module _ {C D : Type 0} ⦃d : Double D⦄ ⦃q : Pqxx C D⦄ where
  -- `for (i = 0; i < stock_size(tx); i++) product = get_product_data(product_codes[i], tx)`.
  unfoldable pub load_from : ℕ → List ℤ → M C D (Unit {0})
  load_from i [] = do size ← stock_size; if ltb_ℤ (pos i) size then throw undefined else return tt
  load_from i (code ∷ product_codes) = do
    size ← stock_size
    when (ltb_ℤ (pos i) size) do _ ← get_product_data code; load_from (suc i) product_codes

  -- `total += price_after_discount * quantity`, over the basket.
  unfoldable pub total_from : D → List (BasketProduct D) → M C D D
  total_from total [] = return total
  total_from total (b ∷ bs) = do
    product ← get_product_data b.code
    total_from (d.add total (d.mul product.price_after_discount b.quantity)) bs

  abbrev draw_list : List ℤ → M C D (Unit {0})
  draw_list list =
      with_world λ w. draw_product_list list w.view.selection (columns_of w.current_tab) w.total

  abbrev sum_basket : M C D D
  sum_basket = with_world λ w. total_from (d.of_int (pos 0)) w.basket

  -- What is drawn, with the codes of all products and those on the screen.
  unfoldable pub show : M C D (List ℤ × List ℤ)
  show = do
    clear
    begin
    product_codes ← code_list
    list ← calculate_visible_product_list
    set_view (λ v. record v { indexed_selection = v.start +ℤ v.selection })
    load_from 0 product_codes
    total ← sum_basket
    set_total total
    draw_list list
    commit
    return (product_codes, list)
