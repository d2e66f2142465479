-- ===== src/Progress/Keys.antt =====
-- The keys of the loop of src/main.cpp.
use cli_pos.Base.{ℕ, List, [], Bool}
use cli_pos.Base.Int.{ℤ}
use cli_pos.Basket.{add_product_to_basket, remove_one}
use cli_pos.Fault.{Result, ok, err, bad_optional_access}
use cli_pos.Main.Keys.{
  Garbage, set_basket, selected, reset_past_basket, key_scroll_up, key_cursor_up, ask_quit,
  erase_product, key_tab, key_scroll_down, key_cursor_down, remove_selected, remove_on, roll_at_end,
  key_remove, add_on, key_add, key_modify, put_in_basket, enter_on, key_enter_product, found_key,
  find_product, show_found, key_search, key_print, key_checkout, scan_on, key_scan,
}
use cli_pos.Product.{Product}
use cli_pos.Text.{Text}
use cli_pos.World.Double.{Double}
use cli_pos.World.Monad.{◌>>=◌, lift}
use cli_pos.World.Pqxx.{Pqxx}
use cli_pos.World.State.{Tab, products, basket, stock, World, BasketProduct}
use cli_pos.Progress.Rules.{IsReal, Quiet, return-Quiet, Takes-Quiet}
use cli_pos.Progress.Calls.{quiet}
use cli_pos.Progress.Results.{safe}
use cli_pos.Progress.Database.{quiet_database}
use cli_pos.Progress.Screen.{clear_messages-Quiet, draw_product_list-Quiet}
use cli_pos.Progress.Typed.{get_string-Takes}
use cli_pos.Progress.Forms.{add_modify_product-Quiet, message-Quiet, print_receipt-Quiet}
use cli_pos.Progress.Shown.{quiet_screen}

bad_access-IsReal : IsReal bad_optional_access
bad_access-IsReal x = cc

-- What is known of the basket behind `R`, if it returns.
abbrev pub Keeps :
    {D : Type 0} → (List (BasketProduct D) → Type 0) → Result (List (BasketProduct D)) → Type 0
Keeps I (ok r) = I r
Keeps I (err f) = IsReal f

-- What holds of the empty basket, and still holds when a product is added or removed.
pub record IsKept {D : Type 0} ⦃d : Double D⦄ (I : List (BasketProduct D) → Type 0) : Type 0 where
  pub emptied : I []
  pub added :
      (garbage : Bool) (p : Product D) (quantity : D) (cart : List (BasketProduct D))
      → I cart
      → I (add_product_to_basket garbage p quantity cart)
  pub removed : (code : ℤ) (cart : List (BasketProduct D)) → I cart → Keeps I (remove_one code cart)

module _ {D : Type 0} {I : List (BasketProduct D) → Type 0} {C : Type 0} {k : ℕ} where
  selected-Quiet : (list : List ℤ) → Quiet I {C = C} k (selected list)
  selected-Quiet list = search (quiet, safe)

  set_basket-Quiet : (b : List (BasketProduct D)) → I b → Quiet I {C = C} k (set_basket b)
  set_basket-Quiet b j = record { fed = λ n w h l i. (h, j) }

  reset_past_basket-Quiet : Quiet I {C = C} k reset_past_basket
  unfolding reset_past_basket
  reset_past_basket-Quiet = search (quiet, quiet_screen)

  pub key_scroll_up-Quiet : Quiet I {C = C} k key_scroll_up
  unfolding key_scroll_up
  key_scroll_up-Quiet = search quiet_screen

  pub key_cursor_up-Quiet : Quiet I {C = C} k key_cursor_up
  unfolding key_cursor_up
  key_cursor_up-Quiet = search quiet_screen

  pub ask_quit-Quiet : Quiet I {C = C} k ask_quit
  unfolding ask_quit
  ask_quit-Quiet = search quiet depth 9

module _ {D : Type 0} {I : List (BasketProduct D) → Type 0} {C : Type 0} ⦃q : Pqxx C D⦄
    {k : ℕ} where
  erase_product-Quiet : (list : List ℤ) → Quiet I {C = C} k (erase_product list)
  unfolding erase_product
  erase_product-Quiet list = search (quiet, quiet_database, selected-Quiet) depth 9

  pub key_tab-Quiet : Quiet I {C = C} k key_tab
  unfolding key_tab
  key_tab-Quiet = search (quiet, quiet_database, quiet_screen) depth 12

  pub key_scroll_down-Quiet : Quiet I {C = C} k key_scroll_down
  unfolding key_scroll_down
  key_scroll_down-Quiet = search (quiet, quiet_database, quiet_screen) depth 9

  pub key_cursor_down-Quiet : (list : List ℤ) → Quiet I {C = C} k (key_cursor_down list)
  unfolding key_cursor_down
  key_cursor_down-Quiet list = search (quiet, quiet_database, quiet_screen) depth 12

module _ {D : Type 0} {I : List (BasketProduct D) → Type 0} {C : Type 0} ⦃d : Double D⦄
    ⦃q : Pqxx C D⦄ {k : ℕ} where
  add_on-Quiet : (tab : Tab) (list : List ℤ) → Quiet I {C = C} k (add_on tab list)
  unfolding add_on
  add_on-Quiet products list =
      search (quiet, quiet_database, selected-Quiet, add_modify_product-Quiet) depth 9
  add_on-Quiet basket list = return-Quiet tt
  add_on-Quiet stock list =
      search (quiet, quiet_database, selected-Quiet, add_modify_product-Quiet) depth 9

  pub key_add-Quiet : (list : List ℤ) → Quiet I {C = C} k (key_add list)
  unfolding key_add
  key_add-Quiet list = search (quiet, add_on-Quiet)

  pub key_modify-Quiet : (list : List ℤ) → Quiet I {C = C} k (key_modify list)
  unfolding key_modify
  key_modify-Quiet list =
      search
        (
          quiet, quiet_database, quiet_screen, clear_messages-Quiet, selected-Quiet,
          add_modify_product-Quiet,
        )
        depth 12

  roll_at_end-Quiet : Quiet I {C = C} k roll_at_end
  roll_at_end-Quiet = search (quiet, quiet_database, quiet_screen) depth 9

  find_product-Quiet :
      (g : Garbage) (product_codes : List ℤ) (word : Text)
      → Quiet I {C = C} k (find_product g product_codes word)
  unfolding find_product
  find_product-Quiet g product_codes word = search (quiet, quiet_database, safe) depth 9

  pub key_print-Quiet : Quiet I {C = C} k key_print
  unfolding key_print
  key_print-Quiet = search (quiet, quiet_database, message-Quiet, print_receipt-Quiet) depth 9

module _ {D : Type 0} {I : List (BasketProduct D) → Type 0} {C : Type 0} ⦃d : Double D⦄
    ⦃q : Pqxx C D⦄ (kept : IsKept I) {k : ℕ} where
  lift-Keeps :
      (r : Result (List (BasketProduct D))) (w : World C D)
      → Keeps I r
      → Quiet I {C = C} k (do rest ← lift r; set_basket rest)
  lift-Keeps (ok r) w j = record { fed = λ n w h l i. (h, j) }
  lift-Keeps (err f) w j = record { fed = λ n w h l i. (j, i) }

  remove_selected-Quiet : (list : List ℤ) → Quiet I {C = C} k (remove_selected list)
  unfolding remove_selected
  remove_selected-Quiet list = search (quiet, selected-Quiet, lift-Keeps, kept.removed)

  remove_on-Quiet : (tab : Tab) (list : List ℤ) → Quiet I {C = C} k (remove_on tab list)
  remove_on-Quiet products list = erase_product-Quiet list
  remove_on-Quiet basket list = remove_selected-Quiet list
  remove_on-Quiet stock list = erase_product-Quiet list

  pub key_remove-Quiet : (list : List ℤ) → Quiet I {C = C} k (key_remove list)
  unfolding key_remove
  key_remove-Quiet list =
      search (quiet, quiet_database, quiet_screen, roll_at_end-Quiet, remove_on-Quiet) depth 9

  put_in_basket-Quiet : (g : Garbage) (code : ℤ) → Quiet I {C = C} k (put_in_basket g code)
  unfolding put_in_basket
  put_in_basket-Quiet g code = search (quiet, quiet_database, set_basket-Quiet, kept.added)

  enter_on-Quiet :
      (tab : Tab) (g : Garbage) (list : List ℤ) → Quiet I {C = C} k (enter_on tab g list)
  unfolding enter_on
  enter_on-Quiet products g list =
      search
        (
          quiet, quiet_database, quiet_screen, selected-Quiet, put_in_basket-Quiet,
          reset_past_basket-Quiet,
        )
        depth 12
  enter_on-Quiet basket g list = return-Quiet tt
  enter_on-Quiet stock g list = return-Quiet tt

  pub key_enter-Quiet : (g : Garbage) (list : List ℤ) → Quiet I {C = C} k (key_enter_product g list)
  unfolding key_enter_product
  key_enter-Quiet g list = search (quiet, enter_on-Quiet)

  found_key-Quiet :
      (g : Garbage) (product_codes : List ℤ) (index key : ℕ)
      → Quiet I {C = C} k (found_key g product_codes index key)
  unfolding found_key
  found_key-Quiet g product_codes index key =
      search
        (
          quiet, quiet_screen, safe, add_modify_product-Quiet, put_in_basket-Quiet,
          reset_past_basket-Quiet,
        )
        depth 12

  show_found-Quiet :
      (g : Garbage) (product_codes : List ℤ) (word : Text)
      → Quiet I {C = C} k (show_found g product_codes word)
  unfolding show_found
  show_found-Quiet g product_codes word =
      search (quiet, find_product-Quiet, draw_product_list-Quiet, found_key-Quiet) depth 9

  pub key_search-Quiet :
      (g : Garbage) (product_codes : List ℤ) (slash : ℕ)
      → Quiet I {C = C} k (key_search g product_codes slash)
  unfolding key_search
  key_search-Quiet g product_codes slash =
      search
        (
          quiet, quiet_database, clear_messages-Quiet, Takes-Quiet, get_string-Takes,
          show_found-Quiet,
        )
        depth 12

  pub key_checkout-Quiet : Quiet I {C = C} k key_checkout
  unfolding key_checkout
  key_checkout-Quiet =
      search
        (
          quiet, quiet_database, quiet_screen, message-Quiet, print_receipt-Quiet, set_basket-Quiet,
          kept.emptied,
        )
        depth 12

  scan_on-Quiet : (tab : Tab) (g : Garbage) (code : ℤ) → Quiet I {C = C} k (scan_on tab g code)
  unfolding scan_on
  scan_on-Quiet products g code =
      search (quiet, quiet_database, quiet_screen, put_in_basket-Quiet, message-Quiet) depth 9
  scan_on-Quiet basket g code =
      search (quiet, quiet_database, quiet_screen, put_in_basket-Quiet, message-Quiet) depth 9
  scan_on-Quiet stock g code = return-Quiet tt

  pub key_scan-Quiet : (g : Garbage) → Quiet I {C = C} k (key_scan g)
  unfolding key_scan
  key_scan-Quiet g =
      search
        (
          quiet, quiet_database, quiet_screen, safe, bad_access-IsReal, Takes-Quiet,
          get_string-Takes, scan_on-Quiet,
        )
        depth 16
