-- ===== src/Tests/Scanner/Form.antt =====
-- A name with a comma in it, and a product that is modified without a change.
use cli_pos.Base.{ℕ, ◌≡◌, refl, arith, true, false, List, [], ◌∷◌, ◌++◌}
use cli_pos.Base.Int.{pos}
use cli_pos.Database.Statement.{products_table, exists_sql, select_sql, update_sql}
use cli_pos.Edit.{contains_comma, add_modify_criteria, add_modify_product}
use cli_pos.Edit.Criteria.{IsAnswer, Asks, add_modify_criteria-Asks}
use cli_pos.Edit.Modify.{IsReadBack, enters, add_modify_product_keeps}
use cli_pos.Fault.{answer}
use cli_pos.Input.{remove_non_nr, keep_nr, is_nr}
use cli_pos.Product.{to_nat}
use cli_pos.Text.{codes, text_eq, to_string, print_nat, stol, read_magnitude}
use cli_pos.Words.{to_size}
use cli_pos.World.Monad.{key_enter}
use cli_pos.World.State.{Draw, done, initial_settings}
use cli_pos.Tests.Cart.{rice, whole}
use cli_pos.Tests.Line.{at_keyboard}
use cli_pos.Tests.Scanner.{server, run_query, rice_texts, server-Stocks}

-- `a,` and Enter, a key, and `b` and Enter.
abbrev comma_keys : List ℕ
comma_keys = codes "a," ++ (key_enter ∷ b' ' ∷ b'b' ∷ key_enter ∷ [])

add_modify_criteria-Asks_example : Asks (IsAnswer (to_size (pos 31))) (
    add_modify_criteria
      (codes "NAME")
      (codes "rice")
      (pos 0)
      false
      (pos 31)
      (at_keyboard comma_keys))
add_modify_criteria-Asks_example =
    add_modify_criteria-Asks (codes "NAME") (codes "rice") (pos 0) false (pos 31)
      (at_keyboard comma_keys) (omega arith)

rice-IsReadBack : IsReadBack whole (pos 31) rice
unfolding contains_comma to_string print_nat remove_non_nr keep_nr is_nr stol read_magnitude whole
rice-IsReadBack = record {
  name = (refl, omega arith);
  name_fits = refl;
  code = (refl, omega arith);
  code_reads = refl;
  price = (refl, omega arith);
  price_reads = refl;
  discount = (refl, omega arith);
  percent = pos 0;
  discount_reads = refl;
  percent_is = refl;
  tax = (refl, omega arith);
  stock = (refl, omega arith);
  stock_reads = refl;
  price_to_stock = (refl, omega arith);
  price_to_stock_reads = refl;
}

rice_updated : server.exec (update_sql rice) tt ≡ answer ([], tt)
unfolding server run_query text_eq products_table exists_sql select_sql update_sql to_string
    print_nat whole to_nat
rice_updated = refl

add_modify_product_keeps_example :
    let w = at_keyboard (enters (pos 31) rice b' ' (b'q' ∷ [])) in
    (scr : List Draw) × (add_modify_product rice.code true w
      ≡ done tt (record w { keys = b'q' ∷ []; screen = scr; conn = tt }))
unfolding server initial_settings
add_modify_product_keeps_example =
    add_modify_product_keeps rice (at_keyboard (enters (pos 31) rice b' ' (b'q' ∷ [])))
      rice-IsReadBack rice_texts [] tt tt b' ' (b'q' ∷ []) refl server-Stocks rice_updated refl
