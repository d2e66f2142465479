-- ===== src/Menu/Way.antt =====
-- The runs of the loop of src/menus.cpp on the way through the menus to a variable, and back.
use cli_pos.Base.{
  ℕ, zero, suc, ◌+◌, ◌<◌, ◌≡◌, refl, ap, ◌∙◌, Bool, true, false, List, [], ◌∷◌, ◌++◌, some, length,
  get_elem?, arith, ◌⊎◌, inl, inr,
}
use cli_pos.Fault.{undefined}
use cli_pos.Menu.Data.{
  MenuName, Menu, MenuItem, ItemData, to_menu, string_item, funct, int_item, float_item, bool_item,
  exit_item, menu_of, main_menu,
}
use cli_pos.Menu.Route.{
  Way, here, there, downs, way_keys, get_elem?-some, pick-downs, length-way_keys, pick_esc,
  no_variable,
}
use cli_pos.Menu.Edits.{edited, run_value-Sets}
use cli_pos.Menu.Pick.{selection_list-Picks}
use cli_pos.Menu.Run.{
  print_centered, print_labels, draw_title, run_kind, run_output, menu_rounds, run_menu,
  start_main_menu,
}
use cli_pos.Menu.Select.{move_selection}
use cli_pos.Text.{Text}
use cli_pos.Window.Slice.{at_lem}
use cli_pos.World.Double.{Double}
use cli_pos.World.Drawing.{IsDrawing, return-IsDrawing, drawing}
use cli_pos.World.Monad.{M, key_enter, key_esc}
use cli_pos.World.Pick.{chosen, pick}
use cli_pos.World.State.{World, Outcome, Settings, Draw, done, stopped, cleared}

module _ {C D : Type 0} where
  print_centered-IsDrawing : (s : Text) → IsDrawing {C = C} {D = D} (print_centered s)
  unfolding print_centered
  print_centered-IsDrawing s = record { drawn = λ w. (_, refl) }

  print_labels-IsDrawing :
      (i : ℕ) (labels : List Text) → IsDrawing {C = C} {D = D} (print_labels i labels)
  unfolding print_labels
  print_labels-IsDrawing i [] = return-IsDrawing
  print_labels-IsDrawing i (label ∷ labels) =
      let rest = print_labels-IsDrawing (suc i) labels in search drawing

  draw_title-IsDrawing :
      (menu : Menu) (labels : List Text) → IsDrawing {C = C} {D = D} (draw_title menu labels)
  unfolding draw_title
  draw_title-IsDrawing menu labels =
      let name = print_centered-IsDrawing menu.name in
      let all = print_labels-IsDrawing 0 labels in search drawing

module _ {C D : Type 0} ⦃d : Double D⦄ where
  -- A round in which the keys choose an option.
  chosen_lem :
      (fuel : ℕ) (menu : Menu) (labels : List Text) (selection i : ℕ) (item : MenuItem)
      (rest : List ℕ) (w : World C D)
      → pick (move_selection (length menu.options)) true selection w.keys ≡ chosen i rest
      → get_elem? menu.options i ≡ some item
      → (scr : List Draw) × (menu_rounds (suc fuel) menu labels selection false w
          ≡ run_kind
              (λ below labels'. menu_rounds fuel below labels' 0 false)
              (menu_rounds fuel menu labels i)
              labels
              i
              item
              (record w { keys = rest; screen = scr }))
  unfolding menu_rounds run_output
  chosen_lem fuel menu labels selection i item rest w p e =
      let w₁ = record w { screen = cleared ∷ w.screen } in
      let (scr, t) = (draw_title-IsDrawing menu labels).drawn w₁ in
      let r = selection_list-Picks menu selection true 0 (record w₁ { screen = scr }) in
      let (scr', r') = rw p at r in (scr', rw (t, r', at_lem menu.options i item e) refl)

  -- A round in which Esc leaves the menu.
  leaves_lem :
      (fuel : ℕ) (menu : Menu) (labels : List Text) (selection : ℕ) (rest : List ℕ) (w : World C D)
      → w.keys ≡ key_esc ∷ rest
      → (scr : List Draw) × (menu_rounds (suc fuel) menu labels selection false w
          ≡ done false (record w { keys = rest; screen = scr }))
  unfolding menu_rounds run_output
  leaves_lem fuel menu labels selection rest w k =
      let w₁ = record w { screen = cleared ∷ w.screen } in
      let (scr, t) = (draw_title-IsDrawing menu labels).drawn w₁ in
      let n = length menu.options in
      let p = ap (pick (move_selection n) true selection) k ∙ pick_esc n selection rest in
      let r = selection_list-Picks menu selection true 0 (record w₁ { screen = scr }) in
      let (scr', r') = rw p at r in (scr', rw (t, r') refl)

  -- An item that holds a variable is edited, and the menu goes on.
  edits_lem :
      (deeper : Menu → List Text → M C D Bool) (next : Bool → M C D Bool) (labels : List Text)
      (i : ℕ) (item : MenuItem) (kind : ItemData) (w : World C D) (s : Settings D) (rest : List ℕ)
      → item.kind ≡ kind
      → edited kind w.settings w.keys ≡ some (s, rest)
      → (scr : List Draw) × (run_kind deeper next labels i item w
          ≡ next false (record w { settings = s; keys = rest; screen = scr }))
  unfolding run_kind
  edits_lem deeper next labels i item (to_menu m) w s rest k e = cc
  edits_lem deeper next labels i item (funct a) w s rest k e = cc
  edits_lem deeper next labels i item exit_item w s rest k e = cc
  edits_lem deeper next labels i item (string_item v) w s rest k e =
      let (scr, r) = run_value-Sets i (string_item v) w s rest e in (scr, rw (k, r) refl)
  edits_lem deeper next labels i item (int_item v) w s rest k e =
      let (scr, r) = run_value-Sets i (int_item v) w s rest e in (scr, rw (k, r) refl)
  edits_lem deeper next labels i item float_item w s rest k e =
      let (scr, r) = run_value-Sets i float_item w s rest e in (scr, rw (k, r) refl)
  edits_lem deeper next labels i item bool_item w s rest k e =
      let (scr, r) = run_value-Sets i bool_item w s rest e in (scr, rw (k, r) refl)

  picks_lem :
      (menu : Menu) (i : ℕ) (item : MenuItem) (rest : List ℕ) (w : World C D)
      → get_elem? menu.options i ≡ some item
      → w.keys ≡ downs i (key_enter ∷ rest)
      → pick (move_selection (length menu.options)) true 0 w.keys ≡ chosen i rest
  picks_lem menu i item rest w e k =
      let n = length menu.options in
      let same : 0 + i ≡ i = omega arith in
      ap (pick (move_selection n) true 0) k
      ∙ pick-downs n i 0 rest (omega (arith, get_elem?-some menu.options i item e))
      ∙ ap (λ k. chosen k rest) same

  -- A menu is left with no key but these to come, or the program has stopped there.
  abbrev Leaves : World C D → Outcome C D Bool → Type 0
  Leaves w o = (o ≡ done false w) ⊎ (o ≡ stopped undefined w)

  -- Behind a menu below, whatever way it ends, the program stops, or has stopped.
  below_lem :
      (deeper : Menu → List Text → M C D Bool) (next : Bool → M C D Bool) (labels : List Text)
      (i : ℕ) (item : MenuItem) (below : MenuName) (w w' : World C D)
      → item.kind ≡ to_menu below
      → Leaves w' (deeper (menu_of below) (labels ++ (item.label ∷ [])) w)
      → run_kind deeper next labels i item w ≡ stopped undefined w'
  unfolding run_kind
  below_lem deeper next labels i item below w w' k (inl e) = rw (k, e) refl
  below_lem deeper next labels i item below w w' k (inr e) = rw (k, e) refl

  abbrev deeper_of : ℕ → Menu → List Text → M C D Bool
  deeper_of fuel below labels = menu_rounds fuel below labels 0 false

  -- A round in which the keys choose a menu below.
  through_lem :
      (fuel : ℕ) (m below : MenuName) (i : ℕ) (item : MenuItem) (labels : List Text) (w : World C D)
      (s : Settings D) (left rest : List ℕ)
      → get_elem? (menu_of m).options i ≡ some item
      → item.kind ≡ to_menu below
      → w.keys ≡ downs i (key_enter ∷ left)
      → ((scr : List Draw)
          → (scr' : List Draw) × Leaves
              (record w { settings = s; keys = rest; screen = scr' })
              (menu_rounds fuel
                (menu_of below)
                (labels ++ (item.label ∷ []))
                0
                false
                (record w { keys = left; screen = scr })))
      → (scr : List Draw) × (menu_rounds (suc fuel) (menu_of m) labels 0 false w
          ≡ stopped undefined (record w { settings = s; keys = rest; screen = scr }))
  through_lem fuel m below i item labels w s left rest found to k inner =
      let menu = menu_of m in
      let next : Bool → M C D Bool = menu_rounds fuel menu labels i in
      let (scr, r) =
        chosen_lem fuel menu labels 0 i item left w (picks_lem menu i item left w found k) found in
      let w₁ = record w { keys = left; screen = scr } in
      let (scr', r') = inner scr in
      let w₂ = record w { settings = s; keys = rest; screen = scr' } in
      (scr', r ∙ below_lem (deeper_of fuel) next labels i item below w₁ w₂ to r')

  menu_rounds-Leaves :
      (fuel : ℕ) {m : MenuName} {path : List ℕ} {kind : ItemData} (labels : List Text)
      (w : World C D) (s : Settings D) (answers rest : List ℕ)
      → Way m path kind
      → length path < fuel
      → w.keys ≡ way_keys path answers
      → edited kind w.settings answers ≡ some (s, key_esc ∷ rest)
      → (scr : List Draw) × Leaves
          (record w { settings = s; keys = rest; screen = scr })
          (menu_rounds fuel (menu_of m) labels 0 false w)
  menu_rounds-Leaves zero labels w s answers rest way l k e = elim l [ ]
  menu_rounds-Leaves (suc zero) labels w s answers rest (here found) l k e = absurd (omega arith)
  menu_rounds-Leaves (suc (suc fuel)) labels w s answers rest
        (here {m = m} {i = i} {item = item} found) l k e =
      let menu = menu_of m in
      let next : Bool → M C D Bool = menu_rounds (suc fuel) menu labels i in
      let (scr, r) =
        chosen_lem (suc fuel) menu labels 0 i item answers w
          (picks_lem menu i item answers w found k) found in
      let w₁ = record w { keys = answers; screen = scr } in
      let (scr', r') =
        edits_lem (deeper_of (suc fuel)) next labels i item item.kind w₁ s (key_esc ∷ rest) refl
          e in
      let w₂ = record w₁ { settings = s; keys = key_esc ∷ rest; screen = scr' } in
      let (scr'', r'') = leaves_lem fuel menu labels i rest w₂ refl in (scr'', inl (r ∙ r' ∙ r''))
  menu_rounds-Leaves (suc fuel) labels w s answers rest
        (there {m = m} {below = below} {i = i} {item = item} {path = path} found to way) l k e =
      let (scr, r) =
        through_lem fuel m below i item labels w s (way_keys path answers) rest found to k (λ scr.
          menu_rounds-Leaves fuel (labels ++ (item.label ∷ []))
            (record w { keys = way_keys path answers; screen = scr }) s answers rest way
            (omega arith) refl e) in
      (scr, inr r)

  -- In the settings menu the keys that go the way to an item that holds a variable, those of a line that
  -- ends there and can be read, and one Esc set the variable: a text to what was typed over the old one,
  -- a number to what is left of that without other bytes, where that is not 0, and a truth value to
  -- its negation; a line that is given up changes nothing. Nothing else changes but the keys that are
  -- taken and the screen. But then the behaviour of the program is undefined: the menu above erases the
  -- end of its labels.
  pub start_main_menu_stops :
      {path : List ℕ} {kind : ItemData} (w : World C D) (s : Settings D) (answers rest : List ℕ)
      → Way main_menu path kind
      → w.keys ≡ way_keys path answers
      → edited kind w.settings answers ≡ some (s, key_esc ∷ rest)
      → (scr : List Draw) × (start_main_menu w
          ≡ stopped undefined (record w { settings = s; keys = rest; screen = scr }))
  unfolding start_main_menu run_menu
  start_main_menu_stops w s answers rest (here {i = i} {item = item} found) k e =
      absurd (no_variable i item w.settings s answers (key_esc ∷ rest) found e)
  start_main_menu_stops w s answers rest
        (there {below = below} {i = i} {item = item} {path = below_path} found to way) k e =
      let (scr, r) =
        through_lem (suc (length w.keys)) main_menu below i item ([] ∷ []) w s
          (way_keys below_path answers) rest found to k
          (λ scr.
            menu_rounds-Leaves (suc (length w.keys)) (([] ∷ []) ++ (item.label ∷ []))
              (record w { keys = way_keys below_path answers; screen = scr }) s answers rest way
              (omega (arith, length-way_keys (i ∷ below_path) answers, ap length k)) refl e) in
      (scr, rw r refl)
