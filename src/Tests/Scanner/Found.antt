-- ===== src/Tests/Scanner/Found.antt =====
-- A product that is searched by its name.
use cli_pos.Base.{ℕ, ◌≡◌, refl, arith, List, [], ◌∷◌, ◌++◌}
use cli_pos.Input.Bound.{AllTyped}
use cli_pos.Main.Found.{with_product, key_search_adds}
use cli_pos.Main.Keys.{key_search}
use cli_pos.Search.Find.{IsAscending}
use cli_pos.Text.{is_print}
use cli_pos.World.Monad.{key_enter}
use cli_pos.World.State.{Draw, done, initial_settings}
use cli_pos.Tests.Cart.{rice, whole}
use cli_pos.Tests.Line.{at_keyboard}
use cli_pos.Tests.Scanner.{server, unset, rice_texts, server-Stocks, server-Serves}

-- The name and Enter, and Enter on the product.
abbrev search_keys : List ℕ
search_keys = rice.name ++ (key_enter ∷ key_enter ∷ b'q' ∷ [])

pub rice-AllTyped : AllTyped rice.name
unfolding is_print
rice-AllTyped = (refl, (refl, (refl, (refl, tt))))

pub one_name-IsAscending : IsAscending (rice.name ∷ [])
one_name-IsAscending = (tt, tt)

key_search_adds_example :
    let w = at_keyboard search_keys in
    (scr : List Draw) × (key_search unset (rice.code ∷ []) b'/' w
      ≡ done key_enter (
          with_product unset rice rice_texts
            (record w { keys = b'q' ∷ []; screen = scr; conn = server.finish tt })))
unfolding server initial_settings
key_search_adds_example =
    key_search_adds unset rice rice_texts (rice.name ∷ []) (rice.code ∷ []) 0 (b'q' ∷ []) b'/'
      (at_keyboard search_keys) tt rice-AllTyped (omega arith) (omega arith) refl refl server-Serves
      (omega arith) one_name-IsAscending refl refl server-Stocks
