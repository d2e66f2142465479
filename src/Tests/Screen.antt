-- ===== src/Tests/Screen.antt =====
-- A screen with room for three products.
use cli_pos.Base.{
  ℕ, suc, ◌+◌, ◌-◌, ◌==◌, ◌≡◌, refl, List, [], ◌∷◌, arith, inr, ltb, length, take, drop,
  if◌then◌else◌,
}
use cli_pos.Base.Int.{pos}
use cli_pos.Fault.{ok, err, undefined}
use cli_pos.Window.{cursor_down, cursor_up, slice, set_stop, roll_before_erase}
use cli_pos.Window.Moves.{view, MovesTo, cursor_down-MovesTo, cursor_up-MovesTo}
use cli_pos.Window.Slice.{slice-visible, slice_stale}
use cli_pos.Window.Stale.{slice_before_first}

cursor_down-MovesTo_example :
    MovesTo
      (suc 2)
      7
      (if ltb 1 2 then 2 + 1 + 1 else 2 + 1)
      (cursor_down (suc 2) (pos 7) (view 2 (suc 2) 1 (pos (2 + 1))))
cursor_down-MovesTo_example = cursor_down-MovesTo 2 1 2 7 (omega arith) (omega arith) (omega arith)

cursor_up-MovesTo_example :
    MovesTo 3 7 (if 0 == 0 then 2 else 2 + 0 - 1) (cursor_up (view 2 3 0 (pos 2)))
cursor_up-MovesTo_example =
    cursor_up-MovesTo 2 0 3 7 (pos 2) (omega arith) (omega arith) (omega arith)

abbrev five_codes : List ℕ
five_codes = 11 ∷ 12 ∷ 13 ∷ 14 ∷ 15 ∷ []

slice-visible_example :
    slice five_codes (set_stop (pos 3) (pos (length five_codes)) (view 1 3 0 (pos 1)))
    ≡ ok (take 3 (drop 1 five_codes))
slice-visible_example =
    slice-visible five_codes 3 1 (view 1 3 0 (pos 1)) refl (omega arith) (inr (omega arith))

slice_stale_example :
    slice five_codes (set_stop (pos 3) (pos (length five_codes)) (view 3 3 0 (pos 3)))
    ≡ err undefined
slice_stale_example =
    slice_stale five_codes 3 3 (view 3 3 0 (pos 3)) refl (omega arith) (omega arith) (omega arith)

slice_before_first_example :
    slice five_codes (
      set_stop
        (pos (suc 2))
        (pos (length five_codes))
        (roll_before_erase (pos 24) (pos (suc 5)) (pos (suc 5)) (view 0 3 3 (pos 3))))
    ≡ err undefined
slice_before_first_example = slice_before_first five_codes (pos 24) 5 2 (view 0 3 3 (pos 3)) refl
