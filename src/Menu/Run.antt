-- ===== src/Menu/Run.antt =====
-- get_barcode_prefix, run_menu and start_main_menu.
use cli_pos.Shown.Menus.BarcodeScanner
use cli_pos.Base.{
  ℕ, zero, suc, ◌-◌, ◌/◌, ◌%◌, Bool, true, false, not, List, [], ◌∷◌, ◌++◌, Option, length, ltb,
  ◌==◌, if◌then◌else◌,
}
use cli_pos.Base.Int.{ℤ, pos, negsuc, ◌+ℤ◌, eq_ℤ}
use cli_pos.Database.Query.{first_byte}
use cli_pos.Fault.{checked, exhausted, undefined}
use cli_pos.Input.{get_string, remove_non_nr}
use cli_pos.Menu.Data.{
  Menu, MenuItem, menu_of, main_menu, ItemData, to_menu, string_item, funct, int_item, float_item,
  bool_item, exit_item, Action, test_function, get_barcode_prefix, get_string_item, set_string_item,
  get_int_item, set_int_item, white_pair,
}
use cli_pos.Menu.Select.{selection_list}
use cli_pos.Text.{Text, codes, to_string, stoi}
use cli_pos.Window.{half, at}
use cli_pos.Words.{to_size, size_sub, to_int}
use cli_pos.World.Double.{Double}
use cli_pos.World.State.{Settings, done}
use cli_pos.World.Monad.{
  M, ◌>>=◌, ◌>>◌, return, throw, lift, when, printw, move, clear, getyx, getch, with_world, maybe,
}

-- A `char` converted to an `int`.
unfoldable pub char_to_int : ℕ → ℤ
char_to_int c = if ltb c 128 then pos c else negsuc (255 - c)

-- The byte that an `int` is printed as by %c.
unfoldable pub to_byte : ℤ → ℕ
to_byte (pos n) = n % 256
to_byte (negsuc n) = 255 - n % 256

module _ {C D : Type 0} where
  unfoldable pub set_settings : (Settings D → Settings D) → M C D (Unit {0})
  set_settings f w = done tt (record w { settings = f w.settings })

  unfoldable pub print_centered : Text → M C D (Unit {0})
  print_centered s = with_world λ w. do
    (y, x) ← getyx
    move y (to_int (pos (size_sub (to_size w.terminal.cols) (length s) / 2)))
    printw s

  unfoldable pub run_action : Action → M C D (Unit {0})
  run_action test_function = do clear; printw (codes "Test function\n"); _ ← getch; return tt
  run_action get_barcode_prefix = with_world λ w. do
    clear
    printw (BarcodeScanner.scan_a_code ++ codes "\n")
    printw (BarcodeScanner.current_prefix ++ (to_byte w.settings.barcode_prefix ∷ []))
    s ← get_string false [] white_pair (pos 0)
    maybe s (return tt)
        λ text. set_settings λ s. record s { barcode_prefix = char_to_int (first_byte text) }

  unfoldable pub print_labels : ℕ → List Text → M C D (Unit {0})
  print_labels i [] = return tt
  print_labels i (label ∷ labels) = do
    when (not (i == 0)) (printw (codes "> "))
    printw (label ++ codes " ")
    print_labels (suc i) labels

  -- The name of the menu, or the labels that lead to it.
  unfoldable pub draw_title : Menu → List Text → M C D (Unit {0})
  draw_title menu menu_labels =
      if menu.centered
      then print_centered menu.name
      else (do print_labels 0 menu_labels; move (pos 2) (pos 0))

  -- What is typed over the value of the chosen option.
  unfoldable pub ask : ℕ → Text → M C D (Option Text)
  ask output shown = with_world λ w. do
    move (pos 2 +ℤ pos output) (half w.terminal.cols)
    get_string true shown white_pair (pos 0)

-- An item that holds a variable, on the text that was typed.
module _ {C D : Type 0} ⦃d : Double D⦄ where
  unfoldable pub run_value : ℕ → ItemData → M C D (Unit {0})
  run_value output bool_item = set_settings (λ s. record s { test_b = not s.test_b })
  run_value output (string_item v) = with_world λ w. do
    str ← ask output (get_string_item v w.settings)
    maybe str (return tt) λ t. set_settings (set_string_item v t)
  run_value output (int_item v) = with_world λ w. do
    str ← ask output (to_string (get_int_item v w.settings))
    maybe str (return tt) λ t. do
      n ← lift (stoi (remove_non_nr t))
      when (not (eq_ℤ n (pos 0))) (set_settings (set_int_item v n))
  run_value output float_item = with_world λ w. do
    str ← ask output (d.print w.settings.test_f)
    maybe str (return tt) λ t. do
      x ← lift (checked (d.stof (remove_non_nr t)))
      when (not (d.eq x (d.of_int (pos 0)))) (set_settings λ s. record s { test_f = x })
  run_value output _ = return tt

  -- What the chosen item does. `deeper` runs a menu below with the labels that lead to it, and `next`
  -- is the round behind, with the flag `exit`. Behind a menu below, whatever it returns,
  -- `menu_labels.erase(menu_labels.end())` erases what is not there, which is undefined.
  unfoldable pub run_kind :
      (Menu → List Text → M C D Bool) → (Bool → M C D Bool) → List Text → ℕ → MenuItem → M C D Bool
  run_kind deeper next menu_labels output selected = elim selected.kind [
    | to_menu below ↦ do
      _ ← deeper (menu_of below) (menu_labels ++ (selected.label ∷ []))
      throw undefined
    | funct action ↦ do run_action action; next false
    | exit_item ↦ next true
    | string_item v ↦ do run_value output (string_item v); next false
    | int_item v ↦ do run_value output (int_item v); next false
    | float_item ↦ do run_value output float_item; next false
    | bool_item ↦ do run_value output bool_item; next false
  ]

  -- The option that was chosen, or the end of this menu.
  unfoldable pub run_output :
      (Menu → List Text → M C D Bool)
      → (ℕ → Bool → M C D Bool)
      → Menu
      → List Text
      → Option ℕ
      → M C D Bool
  run_output deeper next menu menu_labels output = maybe output (return false) λ chosen. do
    selected ← lift (at menu.options (pos chosen))
    run_kind deeper (next chosen) menu_labels chosen selected

  -- `while (true)` of run_menu, on fuel: each round, here or in a menu below, takes a key.
  unfoldable pub menu_rounds : ℕ → Menu → List Text → ℕ → Bool → M C D Bool
  menu_rounds zero menu menu_labels selection exit = throw exhausted
  menu_rounds (suc fuel) menu menu_labels selection true = return true
  menu_rounds (suc fuel) menu menu_labels selection false = do
    clear
    draw_title menu menu_labels
    output ← selection_list menu selection true 0
    run_output (λ below labels. menu_rounds fuel below labels 0 false)
        (menu_rounds fuel menu menu_labels) menu menu_labels output

  unfoldable pub run_menu : Menu → List Text → M C D Bool
  run_menu menu menu_labels =
      with_world λ w. menu_rounds (suc (suc (length w.keys))) menu menu_labels 0 false

  -- Called by nothing.
  unfoldable pub test_menu : M C D (Unit {0})
  test_menu = do clear; _ ← run_menu (menu_of main_menu) ([] ∷ []); return tt

  unfoldable pub start_main_menu : M C D (Unit {0})
  start_main_menu = do _ ← run_menu (menu_of main_menu) ([] ∷ []); return tt
