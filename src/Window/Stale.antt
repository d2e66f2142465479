-- ===== src/Window/Stale.antt =====
-- The key `R` of src/main.cpp, with the selection at the window's end.
use cli_pos.Base.{ℕ, suc, ◌≡◌, refl, List, arith, length, leb, if◌then◌else◌}
use cli_pos.Base.Int.{ℤ, pos, negsuc, ◌+ℤ◌, ◌-ℤ◌}
use cli_pos.Fault.{err, undefined}
use cli_pos.Window.{one, shift, roll_before_erase, set_stop, slice, slice_from, at, rounds}
use cli_pos.World.State.{View}

-- The test `int(…) < n <= n` holds for every list that is not empty, so the window always goes up.
pub roll_before_erase_always :
    (lines : ℤ) (n : ℕ) (v : View)
    → roll_before_erase lines (pos (suc n)) (pos (suc n)) v
      ≡ shift (negsuc 0) (record v { selection = v.selection -ℤ one })
unfolding roll_before_erase
roll_before_erase_always lines n v = ground arith

before_first : (v : View) → v.start ≡ pos 0 → (shift (negsuc 0) v).start ≡ negsuc 0
unfolding ◌+ℤ◌
before_first v e = rw e

rounds_from_before : (m : ℕ) → rounds (negsuc 0) (pos m) ≡ suc m
unfolding ◌-ℤ◌
rounds_from_before m = ground arith

slice_from_before :
    {A : Type 0} (xs : List A) (m : ℕ) (v : View)
    → v.start ≡ negsuc 0
    → v.stop ≡ pos m
    → slice xs v ≡ err undefined
unfolding slice slice_from at
slice_from_before xs m v e f = rw (e, f, slice, rounds_from_before m)

stop_after :
    (most size : ℕ) (v : View)
    → v.start ≡ negsuc 0
    → (set_stop (pos (suc most)) (pos size) v)
      ≡ record v { stop = pos (if leb size (suc most) then size else most) }
unfolding set_stop ◌+ℤ◌
stop_after most size v e = ground arith

-- On a list of visible products that starts at the top, what the key `R` does where the selection
-- stands at the end of the window leaves one that starts before the first entry: on a screen with
-- room for a product, the next list of visible products reads before the first entry.
pub slice_before_first :
    {A : Type 0} (xs : List A) (lines : ℤ) (n most : ℕ) (v : View)
    → v.start ≡ pos 0
    → slice xs (
        set_stop
          (pos (suc most))
          (pos (length xs))
          (roll_before_erase lines (pos (suc n)) (pos (suc n)) v))
      ≡ err undefined
slice_before_first xs lines n most v e =
    let up = record v { selection = v.selection -ℤ one } in
    let first = before_first up e in
    rw (roll_before_erase_always lines n v, stop_after most (length xs) (shift (negsuc 0) up) first)
      (slice_from_before xs _ _ first refl)
