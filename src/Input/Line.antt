-- ===== src/Input/Line.antt =====
-- The line that get_string of src/input_string.cpp reads, as a function of the keys alone.
use cli_pos.Base.{
  ℕ, zero, suc, ◌%◌, ◌<◌, ◌≡◌, refl, Bool, true, false, List, [], ◌∷◌, Option, none, some, arith,
  ◌==◌, length, if◌then◌else◌, Bool-cases, inl, inr, not, ◌&&◌, ltb,
}
use cli_pos.Base.Int.{ℤ, pos, negsuc, ◌-ℤ◌, ◌+ℤ◌}
use cli_pos.Fault.{waiting}
use cli_pos.Text.{Text, codes}
use cli_pos.Words.{to_size}
use cli_pos.World.State.{
  World, Draw, Outcome, done, stopped, color_off, added, moved, refreshed, printed, reverse_off,
  reverse_on, color_on,
}
use cli_pos.World.Monad.{getch, print_times, key_enter, key_esc}
use cli_pos.Input.{
  is_erase, is_typed, erased, typed, mark_field, draw_erased, draw_typed, string_loop, get_loop,
  replace_shown, get_string,
}

-- What the keys make of a line: entered or cancelled, with the keys that are left, or not yet ended.
pub data Line : Type 0 where
  entered : Text → List ℕ → Line
  cancelled : List ℕ → Line
  pending : Line

-- Enter ends the line and Esc gives it up; an erasing key takes the last byte away; a printable key
-- is added while the text is shorter than the limit.
unfoldable pub edit : ℤ → Text → List ℕ → Line
edit limit s [] = pending
edit limit s (key ∷ keys) = elim (key == key_enter) [
  | true ↦ entered (erased key s) keys
  | false ↦ elim (key == key_esc) [
    | true ↦ cancelled keys
    | false ↦ edit limit (typed key limit (erased key s)) keys
  ]
]

-- A limit of 0 stands for none.
abbrev pub limit_of : ℤ → ℤ
limit_of (pos zero) = negsuc 0
limit_of (pos (suc n)) = pos (suc n)
limit_of (negsuc n) = negsuc n

limit_of_idem : (m : ℤ) → limit_of (limit_of m) ≡ limit_of m
limit_of_idem (pos zero) = refl
limit_of_idem (pos (suc n)) = refl
limit_of_idem (negsuc n) = refl

module _ {C D : Type 0} where
  -- The call returned the line, and changed nothing but the keys to come and the screen; or it
  -- waits for a key.
  abbrev pub Reads : World C D → Line → Outcome C D (Option Text) → Type 0
  Reads w (entered t rest) o =
      (scr : List Draw) × (o ≡ done (some t) (record w { keys = rest; screen = scr }))
  Reads w (cancelled rest) o =
      (scr : List Draw) × (o ≡ done none (record w { keys = rest; screen = scr }))
  Reads w pending o =
      (scr : List Draw) × (o ≡ stopped waiting (record w { keys = []; screen = scr }))

  mark_field_lem :
      (m y x : ℤ) (s : Text) (w : World C D)
      → (scr : List Draw) × (mark_field m y x s w ≡ done (limit_of m) (record w { screen = scr }))
  unfolding mark_field
  mark_field_lem (pos zero) y x s w = (w.screen, refl)
  mark_field_lem (pos (suc n)) y x s w = (_, refl)
  mark_field_lem (negsuc n) y x s w = (_, refl)

  draw_erased_lem :
      (key : ℕ) (s : Text) (at : ℤ × ℤ) (w : World C D)
      → (scr : List Draw) × (draw_erased key s at w ≡ done tt (record w { screen = scr }))
  unfolding draw_erased
  draw_erased_lem key s (y, x) w = elim (Bool-cases (is_erase key && not (length s == 0))) [
    | inl e ↦
        (refreshed ∷ moved y (x -ℤ pos 1) ∷ added b' ' ∷ moved y (x -ℤ pos 1) ∷ w.screen, rw e)
    | inr e ↦ (w.screen, rw e)
  ]

  draw_typed_lem :
      (show_text : Bool) (key : ℕ) (m : ℤ) (s : Text) (at : ℤ × ℤ) (w : World C D)
      → (scr : List Draw) × (draw_typed show_text key m s at w
          ≡ done tt (record w { screen = scr }))
  unfolding draw_typed
  draw_typed_lem show_text key m s (y, x) w =
      elim (Bool-cases (is_typed key && ltb (length s) (to_size m) && show_text)) [
        | inl e ↦ (moved y (x +ℤ pos 1) ∷ added key ∷ w.screen, rw e)
        | inr e ↦ (w.screen, rw e)
      ]

  string_loop-Reads :
      (fuel : ℕ) (show_text : Bool) (pair y x m : ℤ) (s : Text) (keys : List ℕ) (scr : List Draw)
      (w : World C D)
      → length keys < fuel
      → Reads w
          (edit (limit_of m) s keys)
          (string_loop fuel show_text pair y x m s (record w { keys = keys; screen = scr }))
  unfolding string_loop edit getch
  string_loop-Reads zero show_text pair y x m s keys scr w h = elim h [ ]
  string_loop-Reads (suc fuel) show_text pair y x m s [] scr w h =
      let (scr', e) = mark_field_lem m y x s (record w { keys = []; screen = scr }) in (scr', rw e)
  string_loop-Reads (suc fuel) show_text pair y x m s (key ∷ keys) scr w h =
      let (scr₁, e₁) = mark_field_lem m y x s (record w { keys = key ∷ keys; screen = scr }) in
      let w₁ = record w { keys = keys; screen = scr₁ } in
      let at = w.terminal.cursor scr₁ in
      let (scr₂, e₂) = draw_erased_lem key s at w₁ in
      let w₂ = record w { keys = keys; screen = scr₂ } in
      let s' = erased key s in
      let (scr₃, e₃) = draw_typed_lem show_text key (limit_of m) s' at w₂ in
      elim (Bool-cases (key == key_enter)) [
        | inl enter ↦ rw (e₁, e₂, enter, edit) (color_off pair ∷ scr₂, refl)
        | inr other ↦ elim (Bool-cases (key == key_esc)) [
          | inl esc ↦ rw (e₁, e₂, other, edit, esc) (color_off pair ∷ scr₂, refl)
          | inr plain ↦
              rw (e₁, e₂, other, edit, plain, e₃)
                (rw (limit_of_idem m) at (
                  string_loop-Reads fuel show_text pair y x (limit_of m) (typed key (limit_of m) s')
                    keys scr₃ w (omega arith)))
        ]
      ]

-- The whole of get_string: on a text that is shown, the first key accepts it or starts a new one.
unfoldable pub line : ℤ → Text → List ℕ → Line
unfolding edit
line m [] keys = edit (limit_of m) [] keys
line m (c ∷ s) [] = pending
line m (c ∷ s) (key ∷ keys) = elim (key == key_enter) [
  | true ↦ entered (c ∷ s) keys
  | false ↦ edit (limit_of m) (if is_typed key then (key % 256) ∷ [] else []) keys
]

module _ {C D : Type 0} where
  print_times_lem :
      (n : ℕ) (t : Text) (w : World C D)
      → (scr : List Draw) × (print_times n t w ≡ done tt (record w { screen = scr }))
  unfolding print_times
  print_times_lem zero t w = (w.screen, refl)
  print_times_lem (suc n) t w = print_times_lem n t (record w { screen = printed t ∷ w.screen })

  get_loop-Reads :
      (show_text : Bool) (pair y x m : ℤ) (s : Text) (keys : List ℕ) (scr : List Draw)
      (w : World C D)
      → Reads w
          (edit (limit_of m) s keys)
          (get_loop show_text pair y x m s (record w { keys = keys; screen = scr }))
  unfolding get_loop
  get_loop-Reads show_text pair y x m s keys scr w =
      string_loop-Reads (suc (length keys)) show_text pair y x m s keys scr w (omega arith)

  replace_shown-Reads :
      (show_text : Bool) (pair y x m : ℤ) (c : ℕ) (s : Text) (key : ℕ) (keys : List ℕ)
      (scr : List Draw) (w : World C D)
      → Reads w
          (line m (c ∷ s) (key ∷ keys))
          (replace_shown show_text pair y x m (c ∷ s) key (record w { keys = keys; screen = scr }))
  unfolding replace_shown line
  replace_shown-Reads show_text pair y x m c s key keys scr w =
      let w₁ = record w { keys = keys; screen = moved y x ∷ scr } in
      let (scr₁, e₁) = print_times_lem (length (c ∷ s)) (codes " ") w₁ in
      elim (Bool-cases (key == key_enter)) [
        | inl enter ↦ rw (enter, line, replace_shown) (color_off pair ∷ scr, refl)
        | inr other ↦ elim (Bool-cases (is_typed key)) [
          | inl print ↦ elim (Bool-cases show_text) [
            | inl shown ↦
                rw (other, line, replace_shown, e₁, print, shown)
                  (get_loop-Reads true pair y x m ((key % 256) ∷ []) keys _ w)
            | inr hidden ↦
                rw (other, line, replace_shown, e₁, print, hidden)
                  (get_loop-Reads false pair y x m ((key % 256) ∷ []) keys _ w)
          ]
          | inr skip ↦
              rw (other, line, replace_shown, e₁, skip)
                (get_loop-Reads show_text pair y x m [] keys _ w)
        ]
      ]

  shown-Reads :
      (show_text : Bool) (pair m : ℤ) (c : ℕ) (s : Text) (keys : List ℕ) (w : World C D)
      → Reads w
          (line m (c ∷ s) keys)
          (get_string show_text (c ∷ s) pair m (record w { keys = keys }))
  unfolding get_string getch line
  shown-Reads show_text pair m c s [] w =
      let full : (suc (length s) == 0) ≡ false = ground arith in
      (reverse_off ∷ printed (c ∷ s) ∷ reverse_on ∷ color_on pair ∷ w.screen, rw (full, get_string))
  shown-Reads show_text pair m c s (key ∷ keys) w =
      let full : (suc (length s) == 0) ≡ false = ground arith in
      rw (full, get_string) (replace_shown-Reads show_text pair _ _ m c s key keys _ w)

  -- get_string returns the line that the keys make, from the text shown at first and the limit; it
  -- takes the keys of that line, draws, and changes nothing else. Where no key ends the line it
  -- waits for more.
  pub get_string-Reads :
      (show_text : Bool) (s : Text) (pair m : ℤ) (w : World C D)
      → Reads w (line m s w.keys) (get_string show_text s pair m w)
  unfolding get_string line
  get_string-Reads show_text [] pair m w = get_loop-Reads show_text pair _ _ m [] w.keys _ w
  get_string-Reads show_text (c ∷ s) pair m w = shown-Reads show_text pair m c s w.keys w
