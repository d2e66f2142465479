-- ===== src/Menu/Select.antt =====
-- draw_menus::selection_list and draw_menus::dropdown.
use cli_pos.Base.{
  ℕ, zero, suc, ◌+◌, ◌-◌, ◌*◌, ◌/◌, ◌^◌, Bool, true, false, not, ◌&&◌, List, [], ◌∷◌, ◌++◌, Option,
  none, some, length, ◌==◌, if◌then◌else◌,
}
use cli_pos.Base.Int.{ℤ, pos, ◌+ℤ◌}
use cli_pos.Edit.{is_up, is_down}
use cli_pos.Fault.{exhausted}
use cli_pos.Menu.Data.{
  Menu, MenuItem, ItemData, to_menu, string_item, funct, int_item, float_item, bool_item,
  get_string_item, get_int_item, max,
}
use cli_pos.Table.Row.{pad_size}
use cli_pos.Text.{Text, codes, to_string}
use cli_pos.Window.{half, at}
use cli_pos.Words.{to_size, size_sub, to_int}
use cli_pos.World.Double.{Double}
use cli_pos.World.State.{color_on, color_off, reverse_on, reverse_off}
use cli_pos.World.Monad.{
  M, ◌>>=◌, ◌>>◌, return, throw, lift, when, draw, printw, addch, move, getch, key_esc, key_enter,
  with_world,
}

-- ACS_LLCORNER and ACS_BULLET of ncurses: a letter in the alternative character set.
abbrev pub acs : ℕ → ℕ
acs letter = 2 ^ 22 + letter

unfoldable pub bullet : ItemData → ℕ
bullet (to_menu m) = b'>'
bullet (funct f) = acs b'm'
bullet _ = acs b'~'

-- Up and Down stop at the ends.
unfoldable pub move_selection : ℕ → ℕ → ℕ → ℕ
move_selection options_size key selection =
    if is_up key
    then selection - 1
    else (if is_down key && not (selection + 1 == options_size) then selection + 1 else selection)

-- Those of the dropdown go round.
unfoldable pub rotate_selection : ℕ → ℕ → ℕ → ℕ
rotate_selection options_size key selection =
    if is_up key
    then (if selection == 0 then options_size - 1 else selection - 1)
    else (if is_down key
        then (if selection + 1 == options_size then 0 else selection + 1)
        else selection)

module _ {C D : Type 0} ⦃d : Double D⦄ where
  -- The value of a variable, in the middle of its line.
  unfoldable pub draw_value : ℤ → ItemData → M C D (Unit {0})
  draw_value y (string_item v) w =
      (do move y (half w.terminal.cols); printw (get_string_item v w.settings)) w
  draw_value y bool_item w =
      (do
        move y (half w.terminal.cols)
        printw (if w.settings.test_b then codes "TRUE" else codes "FALSE"))
        w
  draw_value y (int_item v) w =
      (do move y (half w.terminal.cols); printw (to_string (get_int_item v w.settings))) w
  draw_value y float_item w =
      (do move y (half w.terminal.cols); printw (d.print_fixed 3 w.settings.test_f)) w
  draw_value y _ w = return tt w

  -- One option. The description is drawn where it is empty.
  unfoldable pub draw_option : ℤ → Menu → ℤ × ℤ → ℕ → ℕ → ℕ → MenuItem → M C D (Unit {0})
  draw_option cols menu (y, x) space selection i o =
      let padding =
        if menu.centered
        then to_int (pos (size_sub (to_size cols) (length o.label) / 2))
        else pos 0 in
      let current_y = y +ℤ pos i +ℤ pos (space * i) in
      do
        move current_y (x +ℤ padding)
        when (not menu.centered) (addch (bullet o.kind))
        draw (color_on o.color)
        when (i == selection) (draw reverse_on)
        printw (codes " " ++ o.label)
        when (i == selection) (draw reverse_off)
        draw (color_off o.color)
        draw_value current_y o.kind
        when (length o.description == 0)
            do move (current_y +ℤ pos 1) (half cols); printw o.description

  unfoldable pub draw_options : Menu → ℤ × ℤ → ℕ → ℕ → ℕ → List MenuItem → M C D (Unit {0})
  draw_options menu place space selection i [] = return tt
  draw_options menu place space selection i (o ∷ options) = do
    (λ w. draw_option w.terminal.cols menu place space selection i o w)
    draw_options menu place space selection (suc i) options

  -- What a key does: the list ends, or goes on as `next` does from another selection.
  unfoldable pub selection_key : Bool → ℕ → (ℕ → M C D (Option ℕ)) → ℕ → ℕ → M C D (Option ℕ)
  selection_key can_return_nullopt options_size next selection key = elim (key == key_enter) [
    | true ↦ return (some selection)
    | false ↦ elim ((key == key_esc) && can_return_nullopt) [
      | true ↦ return none
      | false ↦ next (move_selection options_size key selection)
    ]
  ]

  -- Each round takes a key.
  unfoldable pub selection_rounds : ℕ → Menu → ℤ × ℤ → Bool → ℕ → ℕ → M C D (Option ℕ)
  selection_rounds zero menu place can_return_nullopt space selection = throw exhausted
  selection_rounds (suc fuel) menu place can_return_nullopt space selection = do
    draw_options menu place space selection 0 menu.options
    key ← getch
    selection_key can_return_nullopt (length menu.options)
        (selection_rounds fuel menu place can_return_nullopt space) selection key

  unfoldable pub selection_list : Menu → ℕ → Bool → ℕ → M C D (Option ℕ)
  selection_list menu selection can_return_nullopt space = with_world λ w.
      selection_rounds (suc (length w.keys)) menu (w.terminal.cursor w.screen) can_return_nullopt
        space selection

module _ {C D : Type 0} where
  unfoldable pub dropdown_rounds : ℕ → List Text → List ℤ → ℤ × ℤ → Bool → ℕ → M C D (Option ℕ)
  dropdown_rounds zero options colors place can_return_nullopt selection = throw exhausted
  dropdown_rounds (suc fuel) options colors (y, x) can_return_nullopt selection = do
    move y x
    color ←
        (if length colors == 0
          then return none
          else (do c ← lift (at colors (pos selection)); draw (color_on c); return (some c)))
    option ← lift (at options (pos selection))
    printw option
    pad_size (size_sub (max options) (length option))
    elim color [ none ↦ return tt | some c ↦ draw (color_off c) ]
    key ← getch
    elim (key == key_enter) [
      | true ↦ return (some selection)
      | false ↦ elim ((key == key_esc) && can_return_nullopt) [
        | true ↦ return none
        | false ↦
            dropdown_rounds fuel options colors (y, x) can_return_nullopt
              (rotate_selection (length options) key selection)
      ]
    ]

  unfoldable pub dropdown : List Text → List ℤ → Bool → ℕ → M C D (Option ℕ)
  dropdown options colors can_return_nullopt selection w =
      dropdown_rounds (suc (length w.keys)) options colors (w.terminal.cursor w.screen)
        can_return_nullopt selection w
