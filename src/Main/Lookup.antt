-- ===== src/Main/Lookup.antt =====
-- The search of src/main.cpp, from the name that is typed to the product that is shown: the name is
-- looked up by binary_search of src/binary_search.cpp in the names that name_list of
-- src/database_functions.cpp reads, and its place taken in the codes of code_list.
use cli_pos.Base.{ℕ, ◌^◌, ◌<◌, ◌≡◌, List, ◌∷◌, some, arith, length, get_elem?}
use cli_pos.Base.Int.{ℤ, pos}
use cli_pos.Fault.{ok}
use cli_pos.Text.{Text}
use cli_pos.Window.{at}
use cli_pos.World.Double.{Double}
use cli_pos.World.Pqxx.{Pqxx}
use cli_pos.World.State.{World, done, cleared}
use cli_pos.Database.Reads.{Serves, lists-Serves}
use cli_pos.Search.Find.{IsAscending, binary_search_finds}
use cli_pos.Main.Keys.{Garbage, find_product}

at_code :
    (codes : List ℤ) (i : ℕ) (code : ℤ) → get_elem? codes i ≡ some code → at codes (pos i) ≡ ok code
unfolding at
at_code codes i code e = rw (e, at)

module _ {C D : Type 0} ⦃d : Double D⦄ ⦃q : Pqxx C D⦄ where
  -- On a table of fewer than 2^31 products, which the server lists by ascending names, the search for
  -- the name of a product, of fewer than 2^31 bytes, ends at its place and its code, whatever `mid` held at first; it clears the
  -- screen and changes nothing else.
  pub find_product_finds :
      (g : Garbage) (names : List Text) (codes : List ℤ) (w : World C D) (i : ℕ) (name : Text)
      (code : ℤ)
      → Serves q names codes w.conn
      → length codes < 2 ^ 31
      → length name < 2 ^ 31
      → IsAscending names
      → get_elem? names i ≡ some name
      → get_elem? codes i ≡ some code
      → find_product g codes name w ≡ done (i, code) (record w { screen = cleared ∷ w.screen })
  unfolding find_product
  find_product_finds g names codes w i name code s small short a e f =
      let (size, codes_read, names_read) = lists-Serves names codes w s small in
      rw (
        names_read,
        binary_search_finds g.mid names i name (omega (arith, s.in_step)) short a e,
        at_code codes i code f,
      )
