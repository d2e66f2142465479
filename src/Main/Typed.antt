-- ===== src/Main/Typed.antt =====
-- The texts that get_string of src/input_string.cpp reads in the loop of src/main.cpp.
use cli_pos.Base.{ℕ, ◌^◌, ◌<◌, ◌≡◌, ap, ◌∙◌, Bool, List, [], ◌∷◌, ◌++◌, some, arith, length}
use cli_pos.Base.Int.{pos}
use cli_pos.Input.{get_string}
use cli_pos.Input.Bound.{AllTyped, line_typed}
use cli_pos.Input.Line.{line, entered, get_string-Reads}
use cli_pos.Table.Pair
use cli_pos.World.Monad.{key_enter}
use cli_pos.World.State.{World, Draw, done}

module _ {C D : Type 0} where
  -- A text that is typed with printable keys, and Enter, where nothing is shown at first.
  pub read_lem :
      (show_text : Bool) (ks rest : List ℕ) (w : World C D)
      → AllTyped ks
      → length ks < 2 ^ 64
      → w.keys ≡ ks ++ (key_enter ∷ rest)
      → (scr : List Draw) × (get_string show_text [] Pair.white (pos 0) w
          ≡ done (some ks) (record w { keys = rest; screen = scr }))
  read_lem show_text ks rest w a l e =
      let r = get_string-Reads show_text [] Pair.white (pos 0) w in
      let typed : line (pos 0) [] w.keys ≡ entered ks rest =
        ap (line (pos 0) []) e ∙ line_typed (pos 0) ks rest a (omega arith) in
      rw typed at r
