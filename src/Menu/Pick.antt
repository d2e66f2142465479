-- ===== src/Menu/Pick.antt =====
-- What the keys choose in selection_list of src/menus.cpp.
use cli_pos.Base.{
  ℕ, zero, suc, ◌<◌, refl, Bool, ◌&&◌, List, [], ◌∷◌, Option, arith, length, ◌==◌, Bool-cases, inl,
  inr,
}
use cli_pos.Base.Int.{ℤ}
use cli_pos.World.Double.{Double}
use cli_pos.World.State.{World, Draw}
use cli_pos.World.Monad.{M, getch, key_enter, key_esc}
use cli_pos.World.Drawing.{IsDrawing, seq-IsDrawing, return-IsDrawing, world-IsDrawing, drawing}
use cli_pos.World.Pick.{pick, Picks, IsOption, pick-IsOption}
use cli_pos.Menu.Data.{
  Menu, MenuItem, ItemData, to_menu, string_item, funct, int_item, float_item, bool_item, exit_item,
}
use cli_pos.Menu.Select.{
  move_selection, draw_value, draw_option, draw_options, selection_key, selection_rounds,
  selection_list,
}

module _ {C D : Type 0} ⦃d : Double D⦄ where
  draw_value-IsDrawing : (y : ℤ) (k : ItemData) → IsDrawing {C = C} {D = D} (draw_value y k)
  unfolding draw_value
  draw_value-IsDrawing y (to_menu m) = record { drawn = λ w. (w.screen, refl) }
  draw_value-IsDrawing y (string_item v) = record { drawn = λ w. (_, refl) }
  draw_value-IsDrawing y (funct f) = record { drawn = λ w. (w.screen, refl) }
  draw_value-IsDrawing y (int_item v) = record { drawn = λ w. (_, refl) }
  draw_value-IsDrawing y float_item = record { drawn = λ w. (_, refl) }
  draw_value-IsDrawing y bool_item = record { drawn = λ w. (_, refl) }
  draw_value-IsDrawing y exit_item = record { drawn = λ w. (w.screen, refl) }

  draw_option-IsDrawing :
      (cols : ℤ) (menu : Menu) (at : ℤ × ℤ) (space selection i : ℕ) (o : MenuItem)
      → IsDrawing {C = C} {D = D} (draw_option cols menu at space selection i o)
  unfolding draw_option
  draw_option-IsDrawing cols menu (y, x) space selection i o =
      search (drawing, draw_value-IsDrawing) depth 20

  draw_options-IsDrawing :
      (menu : Menu) (at : ℤ × ℤ) (space selection i : ℕ) (options : List MenuItem)
      → IsDrawing {C = C} {D = D} (draw_options menu at space selection i options)
  unfolding draw_options
  draw_options-IsDrawing menu at space selection i [] = return-IsDrawing
  draw_options-IsDrawing menu at space selection i (o ∷ options) =
      seq-IsDrawing
        (world-IsDrawing (λ w. draw_option w.terminal.cols menu at space selection i o)
          (λ w. draw_option-IsDrawing w.terminal.cols menu at space selection i o))
        (draw_options-IsDrawing menu at space selection (suc i) options)

  selection_key-Picks :
      (can : Bool) (n : ℕ) (next : ℕ → M C D (Option ℕ)) (selection key : ℕ) (keys : List ℕ)
      (scr : List Draw) (w : World C D)
      → ((s : ℕ)
          → Picks w
              (pick (move_selection n) can s keys)
              (next s (record w { keys = keys; screen = scr })))
      → Picks w
          (pick (move_selection n) can selection (key ∷ keys))
          (selection_key can n next selection key (record w { keys = keys; screen = scr }))
  unfolding selection_key pick
  selection_key-Picks can n next selection key keys scr w h = elim (Bool-cases (key == key_enter)) [
    | inl enter ↦ rw (enter, pick, selection_key) (scr, refl)
    | inr other ↦ elim (Bool-cases ((key == key_esc) && can)) [
      | inl esc ↦ rw (other, pick, selection_key, esc) (scr, refl)
      | inr plain ↦ rw (other, pick, selection_key, plain) (h (move_selection n key selection))
    ]
  ]

  selection_rounds-Picks :
      (fuel : ℕ) (menu : Menu) (at : ℤ × ℤ) (can : Bool) (space selection : ℕ) (keys : List ℕ)
      (scr : List Draw) (w : World C D)
      → length keys < fuel
      → Picks w (pick (move_selection (length menu.options)) can selection keys) (
          selection_rounds fuel menu at can space selection
            (record w { keys = keys; screen = scr }))
  unfolding selection_rounds getch pick
  selection_rounds-Picks zero menu at can space selection keys scr w h = elim h [ ]
  selection_rounds-Picks (suc fuel) menu at can space selection [] scr w h =
      let w₁ = record w { keys = []; screen = scr } in
      let (scr', e) = (draw_options-IsDrawing menu at space selection 0 menu.options).drawn w₁ in
      (scr', rw e)
  selection_rounds-Picks (suc fuel) menu at can space selection (key ∷ keys) scr w h =
      let w₁ = record w { keys = key ∷ keys; screen = scr } in
      let (scr', e) = (draw_options-IsDrawing menu at space selection 0 menu.options).drawn w₁ in
      rw e (
        selection_key-Picks can (length menu.options) (selection_rounds fuel menu at can space)
          selection key keys scr' w
          (λ s. selection_rounds-Picks fuel menu at can space s keys scr' w (omega arith)))

  -- selection_list returns the option that the keys pick, or none where Esc gives up, takes those
  -- keys, draws, and changes nothing else; where no key ends it, it waits for more.
  pub selection_list-Picks :
      (menu : Menu) (selection : ℕ) (can : Bool) (space : ℕ) (w : World C D)
      → Picks w
          (pick (move_selection (length menu.options)) can selection w.keys)
          (selection_list menu selection can space w)
  unfolding selection_list
  selection_list-Picks menu selection can space w =
      selection_rounds-Picks (suc (length w.keys)) menu _ can space selection w.keys w.screen w
        (omega arith)

move_selection_lt : (n key selection : ℕ) → selection < n → move_selection n key selection < n
unfolding move_selection
move_selection_lt n key selection h = ground arith

-- From a selection that is one of the `n` options of a menu, the option that the keys choose is one
-- of them.
pub pick_menu-IsOption :
    (can : Bool) (n selection : ℕ) (keys : List ℕ)
    → selection < n
    → IsOption n (pick (move_selection n) can selection keys)
pick_menu-IsOption can n selection keys h =
    pick-IsOption n (move_selection n) can selection keys (λ key i. move_selection_lt n key i) h
