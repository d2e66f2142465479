-- ===== src/Edit/Choice.antt =====
-- What the keys choose in the last question of add_modify_product of src/main.cpp.
use cli_pos.Base.{
  ℕ, zero, suc, ◌<◌, refl, true, List, [], ◌∷◌, Option, arith, length, ◌==◌, Bool-cases, inl, inr,
}
use cli_pos.World.State.{World, Draw, nr_of_selling_options}
use cli_pos.World.Monad.{M, getch, key_enter, key_esc}
use cli_pos.World.Drawing.{IsDrawing, drawing}
use cli_pos.World.Pick.{pick, Picks, IsOption, pick-IsOption}
use cli_pos.Table.Messages.{clear_messages-IsDrawing}
use cli_pos.Edit.{
  previous_option, next_option, move_option, choose_key, draw_choice, choose_rounds, choose_sold_by,
}

module _ {C D : Type 0} where
  draw_choice-IsDrawing : (selection : ℕ) → IsDrawing {C = C} {D = D} (draw_choice selection)
  unfolding draw_choice
  draw_choice-IsDrawing selection = search (drawing, clear_messages-IsDrawing) depth 8

  choose_key-Picks :
      (next : ℕ → M C D (Option ℕ)) (selection key : ℕ) (keys : List ℕ) (scr : List Draw)
      (w : World C D)
      → ((s : ℕ)
          → Picks w
              (pick move_option true s keys)
              (next s (record w { keys = keys; screen = scr })))
      → Picks w
          (pick move_option true selection (key ∷ keys))
          (choose_key next selection key (record w { keys = keys; screen = scr }))
  unfolding choose_key pick
  choose_key-Picks next selection key keys scr w h = elim (Bool-cases (key == key_enter)) [
    | inl enter ↦ rw (enter, pick, choose_key) (scr, refl)
    | inr other ↦ elim (Bool-cases (key == key_esc)) [
      | inl esc ↦ rw (other, pick, choose_key, esc) (scr, refl)
      | inr plain ↦ rw (other, pick, choose_key, plain) (h (move_option key selection))
    ]
  ]

  choose_rounds-Picks :
      (fuel selection : ℕ) (keys : List ℕ) (scr : List Draw) (w : World C D)
      → length keys < fuel
      → Picks w
          (pick move_option true selection keys)
          (choose_rounds fuel selection (record w { keys = keys; screen = scr }))
  unfolding choose_rounds getch pick
  choose_rounds-Picks zero selection keys scr w h = elim h [ ]
  choose_rounds-Picks (suc fuel) selection [] scr w h =
      let w₁ = record w { keys = []; screen = scr } in
      let (scr', e) = (draw_choice-IsDrawing selection).drawn w₁ in (scr', rw e)
  choose_rounds-Picks (suc fuel) selection (key ∷ keys) scr w h =
      let w₁ = record w { keys = key ∷ keys; screen = scr } in
      let (scr', e) = (draw_choice-IsDrawing selection).drawn w₁ in
      rw e (
        choose_key-Picks (choose_rounds fuel) selection key keys scr' w
          (λ s. choose_rounds-Picks fuel s keys scr' w (omega arith)))

move_option_lt :
    (key selection : ℕ)
    → selection < nr_of_selling_options
    → move_option key selection < nr_of_selling_options
unfolding move_option previous_option next_option
move_option_lt key zero h = ground arith
move_option_lt key (suc selection) h = ground arith

module _ {C D : Type 0} where
  pub choose_sold_by_keys :
      (selection : ℕ) (w : World C D)
      → Picks w (pick move_option true selection w.keys) (choose_sold_by selection w)
  unfolding choose_sold_by
  choose_sold_by_keys selection w =
      choose_rounds-Picks (suc (length w.keys)) selection w.keys w.screen w (omega arith)

  -- The question how a product is sold ends as the keys have it, from a selection that is one of the
  -- three answers with one of the three; it takes those keys, draws, and changes nothing else. Where no
  -- key ends it, it waits for more.
  choose_sold_by-Picks :
      (selection : ℕ) (w : World C D)
      → selection < nr_of_selling_options
      → let p = pick move_option true selection w.keys in
        Picks w p (choose_sold_by selection w) × IsOption nr_of_selling_options p
  choose_sold_by-Picks selection w h = (
    choose_sold_by_keys selection w,
    pick-IsOption nr_of_selling_options move_option true selection w.keys
        (λ key i. move_option_lt key i) h,
  )
