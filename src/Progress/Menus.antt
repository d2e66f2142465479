-- ===== src/Progress/Menus.antt =====
-- run_menu of src/menus.cpp, and what its items do.
use cli_pos.Base.{ℕ, zero, suc, List, [], ◌∷◌, Bool, true, false, Option, none, some}
use cli_pos.Menu.Data.{
  Menu, MenuItem, ItemData, to_menu, string_item, funct, int_item, float_item, bool_item, exit_item,
  Action, test_function, get_barcode_prefix,
}
use cli_pos.Menu.Run.{
  set_settings, print_centered, run_action, print_labels, draw_title, ask, run_value, run_kind,
  run_output, menu_rounds, run_menu, start_main_menu,
}
use cli_pos.Text.{Text}
use cli_pos.World.Double.{Double}
use cli_pos.World.Monad.{M}
use cli_pos.World.State.{BasketProduct, Settings, cleared}
use cli_pos.Progress.Rules.{Quiet, Takes-Quiet, none-Quiet, return-Quiet, loop-Quiet, throw-Quiet}
use cli_pos.Progress.Calls.{quiet, draw-Quiet, seq-Quiet, taken-Quiet}
use cli_pos.Progress.Results.{safe, undefined-IsReal}
use cli_pos.Progress.Typed.{get_string-Takes, selection_list-Takes}

module _ {D : Type 0} {I : List (BasketProduct D) → Type 0} {C : Type 0} {k : ℕ} where
  pub set_settings-Quiet : (f : Settings D → Settings D) → Quiet I {C = C} k (set_settings f)
  unfolding set_settings
  set_settings-Quiet f = record { fed = λ n w h l i. (h, i) }

  print_centered-Quiet : (s : Text) → Quiet I {C = C} k (print_centered s)
  unfolding print_centered
  print_centered-Quiet s = search quiet

  run_action-Quiet : (a : Action) → Quiet I {C = C} k (run_action a)
  unfolding run_action
  run_action-Quiet test_function = search quiet
  run_action-Quiet get_barcode_prefix =
      search (quiet, set_settings-Quiet, Takes-Quiet, get_string-Takes) depth 9

  print_labels-Quiet : (i : ℕ) (labels : List Text) → Quiet I {C = C} k (print_labels i labels)
  unfolding print_labels
  print_labels-Quiet i [] = return-Quiet tt
  print_labels-Quiet i (label ∷ labels) =
      let rest = print_labels-Quiet (suc i) labels in search quiet

  draw_title-Quiet : (menu : Menu) (labels : List Text) → Quiet I {C = C} k (draw_title menu labels)
  unfolding draw_title
  draw_title-Quiet menu labels = search (quiet, print_centered-Quiet, print_labels-Quiet)

  ask-Quiet : (output : ℕ) (shown : Text) → Quiet I {C = C} k (ask output shown)
  unfolding ask
  ask-Quiet output shown = search (quiet, Takes-Quiet, get_string-Takes)

module _ {D : Type 0} {I : List (BasketProduct D) → Type 0} {C : Type 0} ⦃d : Double D⦄ where
  run_value-Quiet :
      {k : ℕ} (output : ℕ) (data' : ItemData) → Quiet I {C = C} k (run_value output data')
  unfolding run_value
  run_value-Quiet output bool_item = set_settings-Quiet _
  run_value-Quiet output (string_item v) = search (quiet, ask-Quiet, set_settings-Quiet)
  run_value-Quiet output (int_item v) = search (quiet, safe, ask-Quiet, set_settings-Quiet) depth 9
  run_value-Quiet output float_item = search (quiet, safe, ask-Quiet, set_settings-Quiet) depth 9
  run_value-Quiet output (to_menu m) = return-Quiet tt
  run_value-Quiet output (funct f) = return-Quiet tt
  run_value-Quiet output exit_item = return-Quiet tt

  module _ (k : ℕ) (deeper : Menu → List Text → M C D Bool)
      (deeper_quiet : (m : Menu) (l : List Text) → Quiet I k (deeper m l)) where
    kind-Quiet :
        (next : Bool → M C D Bool) (labels : List Text) (output : ℕ) (o : MenuItem)
        (kind : ItemData)
        → ((exit : Bool) → Quiet I k (next exit))
        → Quiet I k (run_kind deeper next labels output (record o { kind = kind }))
    unfolding run_kind
    kind-Quiet next labels output o (to_menu m) h =
        search (quiet, deeper_quiet, throw-Quiet, undefined-IsReal)
    kind-Quiet next labels output o (string_item v) h = search (quiet, run_value-Quiet, h)
    kind-Quiet next labels output o (funct f) h = search (quiet, run_action-Quiet, h)
    kind-Quiet next labels output o (int_item v) h = search (quiet, run_value-Quiet, h)
    kind-Quiet next labels output o float_item h = search (quiet, run_value-Quiet, h)
    kind-Quiet next labels output o bool_item h = search (quiet, run_value-Quiet, h)
    kind-Quiet next labels output o exit_item h = h true

    run_kind-Quiet :
        (next : Bool → M C D Bool) (labels : List Text) (output : ℕ) (o : MenuItem)
        → ((exit : Bool) → Quiet I k (next exit))
        → Quiet I k (run_kind deeper next labels output o)
    run_kind-Quiet next labels output o h = kind-Quiet next labels output o o.kind h

    run_output-Quiet :
        (next : ℕ → Bool → M C D Bool) (menu : Menu) (labels : List Text) (output : Option ℕ)
        → ((chosen : ℕ) (exit : Bool) → Quiet I k (next chosen exit))
        → Quiet I k (run_output deeper next menu labels output)
    unfolding run_output
    run_output-Quiet next menu labels none h = return-Quiet false
    run_output-Quiet next menu labels (some chosen) h = search (quiet, safe, run_kind-Quiet, h)

  menu_rounds-Quiet :
      (k : ℕ) (menu : Menu) (labels : List Text) (selection : ℕ) (exit : Bool)
      → Quiet I {C = C} k (menu_rounds (suc k) menu labels selection exit)
  unfolding menu_rounds
  menu_rounds-Quiet zero menu labels selection exit = none-Quiet
  menu_rounds-Quiet (suc k) menu labels selection true = return-Quiet true
  menu_rounds-Quiet (suc k) menu labels selection false = seq-Quiet (draw-Quiet cleared) (
      seq-Quiet (draw_title-Quiet menu labels) (
        taken-Quiet (selection_list-Takes menu selection true 0) λ output.
          run_output-Quiet k _ (λ m l. menu_rounds-Quiet k m l 0 false)
            (menu_rounds (suc k) menu labels) menu labels output
            (λ chosen exit. menu_rounds-Quiet k menu labels chosen exit)))

  run_menu-Quiet :
      {k : ℕ} (menu : Menu) (labels : List Text) → Quiet I {C = C} k (run_menu menu labels)
  unfolding run_menu
  run_menu-Quiet menu labels =
      loop-Quiet (λ w n. menu_rounds (suc n) menu labels 0 false)
        (λ w n. menu_rounds-Quiet n menu labels 0 false)

  pub start_main_menu-Quiet : {k : ℕ} → Quiet I {C = C} k start_main_menu
  unfolding start_main_menu
  start_main_menu-Quiet = search (quiet, run_menu-Quiet)
