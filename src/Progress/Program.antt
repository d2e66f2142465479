-- ===== src/Progress/Program.antt =====
-- The loop of src/main.cpp as a whole.
use cli_pos.Base.{ℕ, zero, suc, List, Bool, true, false}
use cli_pos.Base.Int.{ℤ}
use cli_pos.Main.Keys.{Garbage}
use cli_pos.Main.Loop.{first_keys, last_keys, handle_key, round, main_rounds, main_loop}
use cli_pos.World.Double.{Double}
use cli_pos.World.Monad.{M, return}
use cli_pos.World.Pqxx.{Pqxx}
use cli_pos.World.State.{BasketProduct}
use cli_pos.Progress.Rules.{Quiet, Takes, loop-Quiet, none-Quiet, return-Quiet}
use cli_pos.Progress.Calls.{quiet, bind-Takes, taken-Takes, taken-Quiet, getch-Takes}
use cli_pos.Progress.Database.{finish-Quiet}
use cli_pos.Progress.Menus.{start_main_menu-Quiet}
use cli_pos.Progress.Shown.{set_tab-Quiet, show-Quiet}
use cli_pos.Progress.Keys.{
  IsKept, key_scroll_up-Quiet, key_cursor_up-Quiet, ask_quit-Quiet, key_tab-Quiet,
  key_scroll_down-Quiet, key_cursor_down-Quiet, key_add-Quiet, key_modify-Quiet, key_print-Quiet,
  key_remove-Quiet, key_enter-Quiet, key_search-Quiet, key_checkout-Quiet, key_scan-Quiet,
}

module _ {D : Type 0} {I : List (BasketProduct D) → Type 0} {C : Type 0} ⦃d : Double D⦄
    ⦃q : Pqxx C D⦄ (kept : IsKept I) {k : ℕ} where
  first_keys-Quiet :
      (g : Garbage) (list : List ℤ) (key : ℕ) → Quiet I {C = C} k (first_keys g list key)
  unfolding first_keys
  first_keys-Quiet g list key =
      search
        (
          quiet,
          start_main_menu-Quiet,
          key_remove-Quiet kept,
          key_add-Quiet,
          key_tab-Quiet,
          set_tab-Quiet,
          key_modify-Quiet,
          key_scroll_up-Quiet,
          key_scroll_down-Quiet,
          key_enter-Quiet kept,
        )
        depth 16

  last_keys-Quiet :
      (g : Garbage) (list : List ℤ) (key : ℕ) → Quiet I {C = C} k (last_keys g list key)
  unfolding last_keys
  last_keys-Quiet g list key =
      search
        (
          quiet,
          key_print-Quiet,
          key_checkout-Quiet kept,
          key_cursor_up-Quiet,
          key_cursor_down-Quiet,
          key_scan-Quiet kept,
        )
        depth 16

  handle_key-Quiet :
      (g : Garbage) (product_codes list : List ℤ) (key : ℕ)
      → Quiet I {C = C} k (handle_key g product_codes list key)
  unfolding handle_key
  handle_key-Quiet g product_codes list key =
      search (quiet, first_keys-Quiet, key_search-Quiet kept, last_keys-Quiet, finish-Quiet) depth 9

module _ {D : Type 0} {I : List (BasketProduct D) → Type 0} {C : Type 0} ⦃d : Double D⦄
    ⦃q : Pqxx C D⦄ (kept : IsKept I) where
  pub round-Takes : (k : ℕ) (g : Garbage) → Takes I {C = C} (suc k) (round g)
  unfolding round
  round-Takes k g =
      search
        (
          bind-Takes,
          taken-Takes,
          getch-Takes,
          show-Quiet,
          quiet,
          ask_quit-Quiet,
          finish-Quiet,
          handle_key-Quiet kept,
        )
        depth 12

  main_rounds-Quiet : (k : ℕ) (g : Garbage) → Quiet I {C = C} k (main_rounds k g)
  unfolding main_rounds
  main_rounds-Quiet zero g = none-Quiet
  main_rounds-Quiet (suc k) g = taken-Quiet (round-Takes k g) (go (main_rounds-Quiet k g))
    where
      go :
          {m : M C D (Unit {0})}
          → Quiet I k m
          → (quit : Bool) → Quiet I k (elim quit [ true ↦ return tt | false ↦ m ])
      go h true = return-Quiet tt
      go h false = h

  pub main_loop-Quiet : {k : ℕ} (g : Garbage) → Quiet I {C = C} k (main_loop g)
  unfolding main_loop
  main_loop-Quiet g = loop-Quiet (λ w n. main_rounds n g) (λ w n. main_rounds-Quiet n g)
