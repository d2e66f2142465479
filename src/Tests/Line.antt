-- ===== src/Tests/Line.antt =====
-- A line typed at the terminal.
use Prim.Native.Nat.{max}
use cli_pos.Base.{ℕ, suc, ◌≡◌, refl, List, [], ◌∷◌, true, false, length}
use cli_pos.Base.Int.{ℤ, pos}
use cli_pos.Text.{codes, stol, is_print}
use cli_pos.Input.{get_string, remove_non_nr}
use cli_pos.Input.Line.{entered, Reads}
use cli_pos.Input.Buffer.{read_line, stack_line, get_string-read_line}
use cli_pos.Input.Bound.{IsBounded, get_string-IsBounded}
use cli_pos.Input.Digits.{IsCode, stol-remove_non_nr}
use cli_pos.World.State.{World, products, initial_settings}
use cli_pos.World.Monad.{key_enter}

-- A terminal of 24 lines, where a cashier is about to type.
abbrev pub at_keyboard : List ℕ → World (Unit {0}) ℤ
at_keyboard keys = record {
  terminal = record {
    lines = pos 24;
    rows = pos 80;
    cols = pos 80;
    has_colors = true;
    cursor = λ _. (pos 22, pos 8);
  };
  keys = keys;
  screen = [];
  conn = tt;
  device = λ _. false;
  printed = [];
  settings = initial_settings (pos 4);
  basket = [];
  current_tab = products;
  view = record { start = pos 0; stop = pos 0; selection = pos 0; indexed_selection = pos 0 };
  total = pos 0;
}

abbrev tea : List ℕ
tea = codes "tea"

-- Delete takes the wrong letter back.
abbrev tea_keys : List ℕ
tea_keys = b't' ∷ b'r' ∷ 263 ∷ b'e' ∷ b'a' ∷ key_enter ∷ b'q' ∷ []

get_string-read_line_example :
    let w = at_keyboard tea_keys in
    Reads w (read_line (pos 0) [] w.keys) (get_string true [] (pos 127) (pos 0) w)
get_string-read_line_example = get_string-read_line true [] (pos 127) (pos 0) (at_keyboard tea_keys)

edited_tea : read_line (pos 0) [] tea_keys ≡ entered tea (b'q' ∷ [])
unfolding read_line stack_line is_print
edited_tea = refl

get_string-IsBounded_example :
    IsBounded
      (max (suc 2) (length (codes "milk")))
      (get_string true (codes "milk") (pos 127) (pos (suc 2)) (at_keyboard tea_keys))
get_string-IsBounded_example =
    get_string-IsBounded true (codes "milk") (pos 127) 2 (at_keyboard tea_keys)

stol-remove_non_nr_example : IsCode (stol (remove_non_nr (codes "#594-3")))
stol-remove_non_nr_example = stol-remove_non_nr (codes "#594-3")
