-- ===== src/Tests/Choice.antt =====
-- A choice in the settings menu.
use cli_pos.Base.{ℕ, ◌≡◌, refl, List, [], ◌∷◌}
use cli_pos.World.Monad.{key_enter, key_esc}
use cli_pos.Menu.Data.{menu_of}
use cli_pos.Base.{some}
use cli_pos.Base.Int.{ℤ, pos, eq_ℤ}
use cli_pos.Input.{remove_non_nr, keep_nr, is_nr}
use cli_pos.Input.Buffer.{read_line, stack_line}
use cli_pos.Menu.Data.{main_menu, int_item, nr_of_newlines, set_int_item, get_int_item}
use cli_pos.Menu.Edits.{edited}
use cli_pos.Menu.Run.{start_main_menu}
use cli_pos.Menu.Route.{Way, there, here, way_keys}
use cli_pos.Menu.Way.{start_main_menu_stops}
use cli_pos.Text.{stoi, read_magnitude, to_string, print_nat, is_print}
use cli_pos.World.State.{Settings, initial_settings, Draw, stopped}
use cli_pos.Fault.{undefined}
use cli_pos.Tests.Line.{at_keyboard}
use cli_pos.Tests.Cart.{whole}

-- Settings, Peripherals, Receipt printer, and the number of newlines.
abbrev newlines_path : List ℕ
newlines_path = 1 ∷ 1 ∷ 0 ∷ 2 ∷ []

abbrev typed_twenty : List ℕ
typed_twenty = b'2' ∷ b'0' ∷ key_enter ∷ key_esc ∷ b'q' ∷ []

abbrev twenty_newlines : Settings ℤ
twenty_newlines = record (initial_settings (pos 4)) { nr_of_newlines = pos 20 }

newlines-Way : Way main_menu newlines_path (int_item nr_of_newlines)
unfolding menu_of
newlines-Way = there refl refl (there refl refl (there refl refl (here refl)))

twenty_typed :
    edited (int_item nr_of_newlines) (initial_settings (pos 4)) typed_twenty
    ≡ some (twenty_newlines, key_esc ∷ b'q' ∷ [])
unfolding read_line stack_line is_print stoi read_magnitude remove_non_nr keep_nr is_nr set_int_item
    get_int_item initial_settings to_string print_nat eq_ℤ
twenty_typed = refl

start_main_menu_stops_example :
    let w = at_keyboard (way_keys newlines_path typed_twenty) in
    (scr : List Draw) × (start_main_menu w
      ≡ stopped undefined (record w { settings = twenty_newlines; keys = b'q' ∷ []; screen = scr }))
start_main_menu_stops_example =
    start_main_menu_stops (at_keyboard (way_keys newlines_path typed_twenty)) twenty_newlines
      typed_twenty (b'q' ∷ []) newlines-Way refl twenty_typed
