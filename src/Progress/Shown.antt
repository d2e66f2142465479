-- ===== src/Progress/Shown.antt =====
-- What a round of the loop of src/main.cpp does before it reads a key.
use cli_pos.Base.{ℕ, suc, List, [], ◌∷◌}
use cli_pos.Base.Int.{ℤ}
use cli_pos.Main.Show.{
  set_view, set_tab, set_total, list_size_on, current_list_size, visible_on, set_most,
  calculate_visible_product_list, load_from, total_from, show,
}
use cli_pos.World.Double.{Double}
use cli_pos.World.Pqxx.{Pqxx}
use cli_pos.World.State.{View, Tab, products, basket, stock, BasketProduct}
use cli_pos.Progress.Rules.{Quiet, return-Quiet, throw-Quiet}
use cli_pos.Progress.Calls.{quiet}
use cli_pos.Progress.Results.{safe, undefined-IsReal}
use cli_pos.Progress.Database.{stock_size-Quiet, quiet_database}
use cli_pos.Progress.Screen.{draw_product_list-Quiet}

module _ {D : Type 0} {I : List (BasketProduct D) → Type 0} {C : Type 0} {k : ℕ} where
  pub set_view-Quiet : (f : View → View) → Quiet I {C = C} k (set_view f)
  set_view-Quiet f = record { fed = λ n w h l i. (h, i) }

  pub set_tab-Quiet : (tab : Tab) → Quiet I {C = C} k (set_tab tab)
  set_tab-Quiet tab = record { fed = λ n w h l i. (h, i) }

  pub set_total-Quiet : (total : D) → Quiet I {C = C} k (set_total total)
  set_total-Quiet total = record { fed = λ n w h l i. (h, i) }

module _ {D : Type 0} {I : List (BasketProduct D) → Type 0} {C : Type 0} ⦃q : Pqxx C D⦄
    {k : ℕ} where
  list_size_on-Quiet : (tab : Tab) → Quiet I {C = C} k (list_size_on tab)
  unfolding list_size_on
  list_size_on-Quiet products = stock_size-Quiet
  list_size_on-Quiet basket = search quiet
  list_size_on-Quiet stock = stock_size-Quiet

  pub current_list_size-Quiet : Quiet I {C = C} k current_list_size
  unfolding current_list_size
  current_list_size-Quiet = search (quiet, list_size_on-Quiet)

  visible_on-Quiet :
      (tab : Tab) (product_codes : List ℤ) (v : View)
      → Quiet I {C = C} k (visible_on tab product_codes v)
  unfolding visible_on
  visible_on-Quiet products product_codes v = search (quiet, safe)
  visible_on-Quiet basket product_codes v = search (quiet, safe)
  visible_on-Quiet stock product_codes v = search (quiet, safe)

  set_most-Quiet : (most : ℤ) → Quiet I {C = C} k (set_most most)
  unfolding set_most
  set_most-Quiet most = search (quiet, current_list_size-Quiet, set_view-Quiet)

  calculate-Quiet : Quiet I {C = C} k calculate_visible_product_list
  unfolding calculate_visible_product_list
  calculate-Quiet = search (quiet, quiet_database, set_most-Quiet, visible_on-Quiet)

module _ {D : Type 0} {I : List (BasketProduct D) → Type 0} {C : Type 0} ⦃d : Double D⦄
    ⦃q : Pqxx C D⦄ {k : ℕ} where
  load_from-Quiet : (i : ℕ) (product_codes : List ℤ) → Quiet I {C = C} k (load_from i product_codes)
  unfolding load_from
  load_from-Quiet i [] = search (quiet, quiet_database, throw-Quiet, undefined-IsReal)
  load_from-Quiet i (code ∷ product_codes) =
      let rest = load_from-Quiet (suc i) product_codes in search (quiet, quiet_database) depth 9

  total_from-Quiet :
      (total : D) (bs : List (BasketProduct D)) → Quiet I {C = C} k (total_from total bs)
  unfolding total_from
  total_from-Quiet total [] = return-Quiet total
  total_from-Quiet total (b ∷ bs) =
      let rest = λ (x : D). total_from-Quiet x bs in search (quiet, quiet_database, rest) depth 9

  pub show-Quiet : Quiet I {C = C} k show
  unfolding show
  show-Quiet =
      search
        (
          quiet, quiet_database, calculate-Quiet, set_view-Quiet, load_from-Quiet, total_from-Quiet,
          set_total-Quiet, draw_product_list-Quiet,
        )
        depth 20

pub ruleset quiet_screen = (set_view-Quiet, set_tab-Quiet, set_total-Quiet, current_list_size-Quiet)
