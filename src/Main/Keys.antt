-- ===== src/Main/Keys.antt =====
-- What the keys of the main screen do, one function to a key, on the list that is shown.
use cli_pos.Shown.Errors
use cli_pos.Shown.Info
use cli_pos.Base.{
  ℕ, Bool, true, false, not, ◌||◌, List, [], ◌∷◌, Option, none, some, length, ltb, leb, ◌==◌,
  if◌then◌else◌,
}
use cli_pos.Base.Int.{ℤ, pos, eq_ℤ, ◌-ℤ◌}
use cli_pos.Basket.{add_product_to_basket, remove_one}
use cli_pos.Database.Query.{
  begin, commit, finish, stock_size, name_list, get_product_data, product_exists, erase,
}
use cli_pos.Edit.{add_modify_product}
use cli_pos.Fault.{bad_optional_access, or_fail}
use cli_pos.Input.{get_string, remove_non_nr}
use cli_pos.Main.Show.{columns_of, set_view, set_tab, set_total, current_list_size}
use cli_pos.Receipt.Print.{message, print_receipt}
use cli_pos.Search.{binary_search}
use cli_pos.Table.Head.{clear_messages}
use cli_pos.Table.Pair
use cli_pos.Table.Row.{draw_product_list}
use cli_pos.Text.{Text, codes, stol}
use cli_pos.Window.{
  at, roll_before_erase, next_tab, reset_past, to_top, scroll_up, scroll_down, cursor_up,
  select_down, roll_down, is_zero, last_index,
}
use cli_pos.Words.{to_size}
use cli_pos.World.Double.{Double}
use cli_pos.World.Pqxx.{Pqxx}
use cli_pos.World.State.{
  Tab, products, basket, stock, BasketProduct, done, message_x, message_dist_from_bottom,
}
use cli_pos.World.Monad.{
  M, ◌>>=◌, ◌>>◌, return, lift, when, printw, move, clear, getch, key_enter, with_world, maybe,
}

-- What the variables hold that the program reads before it sets them: the flag of
-- add_product_to_basket, and `mid` of binary_search.
pub record Garbage : Type 0 where
  pub flag : Bool
  pub mid : ℕ

module _ {C D : Type 0} where
  abbrev pub set_basket : List (BasketProduct D) → M C D (Unit {0})
  set_basket b w = done tt (record w { basket = b })

  -- `list[selection]`.
  abbrev pub selected : List ℤ → M C D ℤ
  selected list = with_world λ w. lift (at list w.view.selection)

  -- Behind an Enter: `if (indexed_selection >= basket.size())`, in size_t.
  unfoldable pub reset_past_basket : M C D (Unit {0})
  reset_past_basket = with_world λ w.
      set_view (λ v. if leb (length w.basket) (to_size v.indexed_selection) then to_top v else v)

  unfoldable pub key_scroll_up : M C D (Unit {0})
  key_scroll_up = set_view scroll_up

  unfoldable pub key_cursor_up : M C D (Unit {0})
  key_cursor_up = set_view cursor_up

  -- With products in the basket `q` asks first, and the answer is the key that goes on.
  unfoldable pub ask_quit : M C D (Option ℕ)
  ask_quit = with_world λ w. if length w.basket == 0 then return none else (do
    move (w.terminal.lines -ℤ pos message_dist_from_bottom) message_x
    printw Errors.basket_not_empty
    key ← getch
    return (if key == b'y' || key == b'Y' then none else some key))

module _ {C D : Type 0} ⦃q : Pqxx C D⦄ where
  -- `R` on PRODUCTS and STOCK erases from the database.
  unfoldable pub erase_product : List ℤ → M C D (Unit {0})
  erase_product list = do begin; code ← selected list; erase code; commit; finish

  unfoldable pub key_tab : M C D (Unit {0})
  key_tab = do
    with_world λ w. set_tab (next_tab w.current_tab)
    begin
    size ← current_list_size
    set_view (λ v. reset_past v.selection size v)
    commit
    finish

  unfoldable pub key_scroll_down : M C D (Unit {0})
  key_scroll_down = do begin; size ← current_list_size; set_view (scroll_down size); commit; finish

  abbrev when_size : Bool → M C D ℤ
  when_size b = if b then current_list_size else return (pos 0)

  unfoldable pub key_cursor_down : List ℤ → M C D (Unit {0})
  key_cursor_down list = with_world λ w.
      let shown = length list in
      do
        begin
        size ← when_size (ltb (to_size w.view.selection) (last_index shown))
        set_view (select_down shown size)
        size' ← current_list_size
        set_view (roll_down shown size')
        commit
        finish

module _ {C D : Type 0} ⦃d : Double D⦄ ⦃q : Pqxx C D⦄ where
  -- `R` on BASKET takes one of the selected product. `selection == 0` behind it compares.
  unfoldable pub remove_selected : List ℤ → M C D (Unit {0})
  remove_selected list = do
    code ← selected list
    with_world λ w. do rest ← lift (remove_one code w.basket); set_basket rest

  abbrev pub remove_on : Tab → List ℤ → M C D (Unit {0})
  remove_on basket list = remove_selected list
  remove_on products list = erase_product list
  remove_on stock list = erase_product list

  abbrev pub roll_at_end : M C D (Unit {0})
  roll_at_end = with_world λ w. when (eq_ℤ w.view.selection w.view.stop) do
    begin
    size ← current_list_size
    size' ← current_list_size
    set_view (roll_before_erase w.terminal.lines size size')
    finish

  unfoldable pub key_remove : List ℤ → M C D (Unit {0})
  key_remove list = do
    begin
    size ← current_list_size
    when (not (is_zero size)) do commit; roll_at_end; with_world λ w. remove_on w.current_tab list
    finish

  -- `a` asks for a new product, with the selected one for its defaults, whether there is one or not.
  unfoldable pub add_on : Tab → List ℤ → M C D (Unit {0})
  add_on basket list = return tt
  add_on _ list = do
    begin
    _ ← stock_size
    code ← selected list
    add_modify_product code false
    commit
    finish

  unfoldable pub key_add : List ℤ → M C D (Unit {0})
  key_add list = with_world λ w. add_on w.current_tab list

  abbrev nothing_to_modify : M C D (Unit {0})
  nothing_to_modify = with_world λ w. do
    clear_messages
    move (w.terminal.lines -ℤ pos message_dist_from_bottom) message_x
    printw Errors.no_product_to_modify
    _ ← getch
    return tt

  unfoldable pub key_modify : List ℤ → M C D (Unit {0})
  key_modify list = do
    begin
    size ← current_list_size
    (if not (is_zero size)
        then (do code ← selected list; add_modify_product code true)
        else nothing_to_modify)
    commit
    finish

  -- A product goes into the basket, once.
  unfoldable pub put_in_basket : Garbage → ℤ → M C D (Unit {0})
  put_in_basket g code = do
    product ← get_product_data code
    with_world λ w. set_basket (add_product_to_basket g.flag product (d.of_int (pos 1)) w.basket)

  unfoldable pub enter_on : Tab → Garbage → List ℤ → M C D (Unit {0})
  enter_on products g list = do
    begin
    code ← selected list
    put_in_basket g code
    commit
    set_tab basket
    reset_past_basket
    finish
  enter_on _ g list = return tt

  unfoldable pub key_enter_product : Garbage → List ℤ → M C D (Unit {0})
  key_enter_product g list = with_world λ w. enter_on w.current_tab g list

  -- `m` and Enter on the product that a search shows.
  unfoldable pub found_key : Garbage → List ℤ → ℕ → ℕ → M C D (Unit {0})
  found_key g product_codes index key =
      if key == b'm'
      then (do code ← lift (at product_codes (pos index)); add_modify_product code true)
      else when (key == key_enter) do
        code ← lift (at product_codes (pos index))
        put_in_basket g code
        set_tab basket
        reset_past_basket

  -- The place that the search for a name ends at, and the code there, on a screen that is cleared.
  unfoldable pub find_product : Garbage → List ℤ → Text → M C D (ℕ × ℤ)
  find_product g product_codes word = do
    names ← name_list
    index ← lift (binary_search g.mid names word)
    clear
    code ← lift (at product_codes (pos index))
    return (index, code)

  -- The product that a search ends at is shown, until a key is pressed.
  unfoldable pub show_found : Garbage → List ℤ → Text → M C D ℕ
  show_found g product_codes word = do
    (index, code) ← find_product g product_codes word
    draw_product_list (code ∷ []) (pos 0) (columns_of products) (d.of_int (pos 0))
    key ← getch
    found_key g product_codes index key
    return key

  -- `/` searches for a name, shows one product, and hands on the key that is pressed then.
  unfoldable pub key_search : Garbage → List ℤ → ℕ → M C D ℕ
  key_search g product_codes slash = do
    begin
    clear_messages
    printw Info.search_label
    search_word ← get_string true [] Pair.white (pos 0)
    key ← maybe search_word (return slash) (show_found g product_codes)
    finish
    return key

  unfoldable pub key_print : M C D (Unit {0})
  key_print = do begin; _ ← message (codes "Printing receipt"); _ ← print_receipt; finish

  -- `T` empties the basket behind a receipt that was printed.
  unfoldable pub key_checkout : M C D (Unit {0})
  key_checkout = do
    begin
    _ ← message (codes "Printing receipt")
    printed ← print_receipt
    when printed do set_basket []; set_total (d.of_int (pos 0))
    finish

  abbrev not_found : M C D (Unit {0})
  not_found = do _ ← message Errors.product_not_found; return tt

  -- A scanned code, which goes into the basket from any tab but STOCK.
  unfoldable pub scan_on : Tab → Garbage → ℤ → M C D (Unit {0})
  scan_on stock g code = return tt
  scan_on _ g code = do
    found ← product_exists code
    if found then (do put_in_basket g code; set_tab basket) else not_found

  -- The barcode prefix: the scanner types the code behind it.
  unfoldable pub key_scan : Garbage → M C D (Unit {0})
  key_scan g = do
    typed ← get_string false [] Pair.white (pos 0)
    text ← lift (or_fail typed bad_optional_access)
    code ← lift (stol (remove_non_nr text))
    begin
    with_world λ w. scan_on w.current_tab g code
    size ← current_list_size
    set_view (λ v. reset_past v.selection size v)
    commit
    finish
