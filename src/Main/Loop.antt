-- ===== src/Main/Loop.antt =====
-- The loop of main: the keys are tested one behind the other, on the key that is pressed or on the
-- one that `q` or `/` read after it.
use cli_pos.Base.{ℕ, zero, suc, Bool, true, false, List, some, length, ◌==◌, if◌then◌else◌}
use cli_pos.Base.Int.{ℤ, pos, eq_ℤ}
use cli_pos.Database.Query.{finish}
use cli_pos.Edit.{is_up, is_down}
use cli_pos.Fault.{exhausted}
use cli_pos.Main.Keys.{
  Garbage, ask_quit, key_remove, key_add, key_tab, key_modify, key_scroll_up, key_scroll_down,
  key_enter_product, key_search, key_print, key_checkout, key_cursor_up, key_cursor_down, key_scan,
}
use cli_pos.Main.Show.{set_tab, show}
use cli_pos.Menu.Run.{start_main_menu}
use cli_pos.World.Double.{Double}
use cli_pos.World.Pqxx.{Pqxx}
use cli_pos.World.State.{stock}
use cli_pos.World.Monad.{
  M, ◌>>=◌, ◌>>◌, return, throw, when, getch, key_esc, key_enter, with_world, maybe,
}

module _ {C D : Type 0} ⦃d : Double D⦄ ⦃q : Pqxx C D⦄ where
  -- The tests from Esc to Enter.
  unfoldable pub first_keys : Garbage → List ℤ → ℕ → M C D (Unit {0})
  first_keys g list key = do
    when (key == key_esc) start_main_menu
    when (key == b'R') (key_remove list)
    when (key == b'a') (key_add list)
    when (key == 9) key_tab
    when (key == b'r') (set_tab stock)
    when (key == b'm') (key_modify list)
    when (key == b'w') key_scroll_up
    when (key == b's') key_scroll_down
    when (key == key_enter) (key_enter_product g list)

  -- The tests behind the search.
  unfoldable pub last_keys : Garbage → List ℤ → ℕ → M C D (Unit {0})
  last_keys g list key = do
    when (key == b't') key_print
    when (key == b'T') key_checkout
    when (is_up key) key_cursor_up
    when (is_down key) (key_cursor_down list)
    with_world λ w. when (eq_ℤ (pos key) w.settings.barcode_prefix) (key_scan g)

  unfoldable pub handle_key : Garbage → List ℤ → List ℤ → ℕ → M C D (Unit {0})
  handle_key g product_codes list key = do
    first_keys g list key
    key' ← if key == b'/' then key_search g product_codes key else return key
    last_keys g list key'
    finish

  -- One round; `true` where it ends the program.
  unfoldable pub round : Garbage → M C D Bool
  round g = do
    (product_codes, list) ← show
    key ← getch
    next ← if key == b'q' then ask_quit else return (some key)
    maybe next (do finish; return true)
        λ key'. do handle_key g product_codes list key'; return false

  -- `while (true)`: each round takes a key.
  unfoldable pub main_rounds : ℕ → Garbage → M C D (Unit {0})
  main_rounds zero g = throw exhausted
  main_rounds (suc fuel) g = do
    quit ← round g
    elim quit [ true ↦ return tt | false ↦ main_rounds fuel g ]

  unfoldable pub main_loop : Garbage → M C D (Unit {0})
  main_loop g = with_world λ w. main_rounds (suc (length w.keys)) g
