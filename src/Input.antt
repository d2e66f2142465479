-- ===== src/Input.antt =====
-- src/input_string.cpp: a line typed at the terminal, and the filter that keeps its digits.
pub mod Buffer
pub mod Left
pub mod Line
pub mod Bound
pub mod Digits
pub mod RoundTrip
use cli_pos.Base.{
  ℕ, zero, suc, ◌+◌, ◌-◌, ◌%◌, ◌^◌, ◌≡◌, refl, Bool, true, false, ◌&&◌, ◌||◌, not, List, [], ◌∷◌,
  ◌++◌, Option, none, some, ltb, leb, ◌==◌, length, take, if◌then◌else◌,
}
use cli_pos.Base.Int.{ℤ, pos, negsuc, ◌+ℤ◌, ◌-ℤ◌}
use cli_pos.Fault.{exhausted}
use cli_pos.Text.{Text, codes, is_print, is_digit}
use cli_pos.Words.{to_size}
use cli_pos.World.State.{World, color_on, color_off, reverse_on, reverse_off}
use cli_pos.World.Monad.{
  M, ◌>>=◌, ◌>>◌, return, throw, when, draw, printw, print_times, addch, move, refresh, getyx,
  getch, key_backspace, key_delete, key_esc, key_enter,
}

-- std::string::pop_back.
unfoldable pub pop_back : Text → Text
pop_back [] = []
pop_back (c ∷ []) = []
pop_back (c ∷ d ∷ s) = c ∷ pop_back (d ∷ s)

-- `isprint(static_cast<char>(key))`.
abbrev pub is_typed : ℕ → Bool
is_typed key = is_print (key % 256)

abbrev pub is_erase : ℕ → Bool
is_erase key = key == key_backspace || key == key_delete

-- What a key does to the text: an erasing key drops its last byte, a printable one is put behind it
-- if there is room.
unfoldable pub erased : ℕ → Text → Text
erased key s = if is_erase key then pop_back s else s

unfoldable pub typed : ℕ → ℤ → Text → Text
typed key max_length s =
    if is_typed key && ltb (length s) (to_size max_length) then s ++ ((key % 256) ∷ []) else s

module _ {C D : Type 0} where
  -- The field's end is marked at the top of each round; a length of 0 means no limit.
  unfoldable pub mark_field : ℤ → ℤ → ℤ → Text → M C D ℤ
  mark_field (pos zero) y x s = return (negsuc 0)
  mark_field max_length y x s = do
    draw reverse_on
    move y (x +ℤ max_length)
    printw (codes " ")
    move y (x +ℤ pos (length s))
    draw reverse_off
    return max_length

  unfoldable pub draw_erased : ℕ → Text → ℤ × ℤ → M C D (Unit {0})
  draw_erased key s (y, x) =
      when (is_erase key && not (length s == 0))
        do move y (x -ℤ pos 1); addch b' '; move y (x -ℤ pos 1); refresh

  unfoldable pub draw_typed : Bool → ℕ → ℤ → Text → ℤ × ℤ → M C D (Unit {0})
  draw_typed show_text key max_length s (y, x) =
      when (is_typed key && ltb (length s) (to_size max_length) && show_text)
        do addch key; move y (x +ℤ pos 1)

  -- `while (true)` of get_string: each round takes a key.
  unfoldable pub string_loop : ℕ → Bool → ℤ → ℤ → ℤ → ℤ → Text → M C D (Option Text)
  string_loop zero show_text color_pair y x max_length s = throw exhausted
  string_loop (suc fuel) show_text color_pair y x max_length s = do
    limit ← mark_field max_length y x s
    key ← getch
    at ← getyx
    draw_erased key s at
    let s' = erased key s
    elim (key == key_enter) [
      | true ↦ do draw (color_off color_pair); return (some s')
      | false ↦ elim (key == key_esc) [
        | true ↦ do draw (color_off color_pair); return none
        | false ↦ do
          draw_typed show_text key limit s' at
          string_loop fuel show_text color_pair y x limit (typed key limit s')
      ]
    ]

  -- As many rounds as there are keys, and one that finds none.
  unfoldable pub get_loop : Bool → ℤ → ℤ → ℤ → ℤ → Text → M C D (Option Text)
  get_loop show_text color_pair y x max_length s w =
      string_loop (suc (length w.keys)) show_text color_pair y x max_length s w

  -- The first key on a text that is shown at the start: Enter accepts it, any other clears it.
  unfoldable pub replace_shown : Bool → ℤ → ℤ → ℤ → ℤ → Text → ℕ → M C D (Option Text)
  replace_shown show_text color_pair y x max_length s key = elim (key == key_enter) [
    | true ↦ do draw (color_off color_pair); return (some s)
    | false ↦ do
      move y x
      print_times (length s) (codes " ")
      move y x
      when (is_typed key) do when show_text (addch key); refresh
      let first = if is_typed key then (key % 256) ∷ [] else []
      get_loop show_text color_pair y x max_length first
  ]

  unfoldable pub get_string : Bool → Text → ℤ → ℤ → M C D (Option Text)
  get_string show_text s color_pair max_length = do
    (y, x) ← getyx
    draw (color_on color_pair)
    draw reverse_on
    printw s
    draw reverse_off
    elim (length s == 0) [
      | true ↦ get_loop show_text color_pair y x max_length s
      | false ↦ do key ← getch; replace_shown show_text color_pair y x max_length s key
    ]

-- A place that the loop of remove_non_nr keeps: a digit, or a '.'.
unfoldable pub is_nr : ℕ → Bool
is_nr c = (leb 48 c && leb c 57) || c == 46

unfoldable pub keep_nr : Text → Text
keep_nr [] = []
keep_nr (c ∷ s) = if is_nr c then c ∷ keep_nr s else keep_nr s

-- The counter of the loop is a `short int`: past 32767 it turns negative, which the comparison
-- with a length reads as a huge number, and the loop ends.
abbrev pub short_range : ℕ
short_range = 32_768

unfoldable pub remove_non_nr : Text → Text
remove_non_nr input =
    let output = keep_nr (take short_range input) in elim output [ [] ↦ codes "0" | c ∷ s ↦ c ∷ s ]
