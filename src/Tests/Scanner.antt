-- ===== src/Tests/Scanner.antt =====
-- A scanner and a cashier at the till, and a connection to a table with one product.
mod Printer
mod Form
mod Counter
mod Sale
mod Found
mod Shop
use cli_pos.Base.{
  ℕ, ◌≡◌, some, refl, ap, false, List, [], ◌∷◌, ◌++◌, true, false, arith, length, if◌then◌else◌,
}
use cli_pos.Base.Int.{ℤ, pos, ◌-ℤ◌, ◌*ℤ◌}
use cli_pos.Fault.{Answer, answer, raise, no_number, failed, Result, ok, err}
use cli_pos.Input.{remove_non_nr, keep_nr, is_nr}
use cli_pos.Input.Bound.{AllTyped}
use cli_pos.Product.{to_nat}
use cli_pos.Text.{Text, codes, text_eq, to_string, print_nat, stol, is_print, read_magnitude}
use cli_pos.Window.{at, reset_past}
use cli_pos.World.Pqxx.{Pqxx, Rows}
use cli_pos.World.State.{Terminal, Draw, done, basket}
use cli_pos.World.Monad.{key_enter}
use cli_pos.Database.Statement.{
  products_table, exists_sql, select_sql, update_sql, count_sql, codes_sql, names_sql,
}
use cli_pos.Database.Query.{first_byte, product_exists, get_product_data}
use cli_pos.Database.Reads.{Serves, column_of}
use cli_pos.Text.RoundTrip.{IsLong, stol-to_string}
use cli_pos.Database.Row.{RowTexts, row_of, Stocks, product-Stocks}
use cli_pos.Main.Keys.{Garbage, key_scan, key_enter_product}
use cli_pos.Main.Start.{run_program}
use cli_pos.Basket.Quantity.{IsDistinct}
use cli_pos.Progress.Whole.{Run, Ends, basket_of, run_program-Ends, run_program-IsDistinct}
use cli_pos.Main.Scan.{with_one, key_scan_adds}
use cli_pos.Main.Enter.{past_end, key_enter_adds}
use cli_pos.Tests.Cart.{rice, whole}
use cli_pos.Tests.Line.{at_keyboard}

abbrev to_answer : Result ℤ → Answer ℤ
to_answer (ok z) = answer z
to_answer (err _) = raise no_number

abbrev read : Text → Answer ℤ
read t = to_answer (stol t)

abbrev rice_texts : RowTexts
rice_texts = record {
  name = codes "rice";
  code = codes "5941";
  price = codes "12";
  discount = codes "0";
  tax = codes "A";
  stock = codes "40";
  price_to_stock = codes "9";
  sold_by = codes "2";
}

-- The queries that the lists are read with.
unfoldable list_query : Text → Answer Rows
list_query sql =
    if text_eq sql count_sql
    then answer (column_of to_string (pos 1 ∷ []))
    else (if text_eq sql codes_sql
        then answer (column_of to_string (rice.code ∷ []))
        else (if text_eq sql names_sql
            then answer (column_of (λ t. t) (rice.name ∷ []))
            else raise failed))

unfoldable run_query : Text → Answer Rows
run_query sql =
    if text_eq sql (exists_sql (pos 5941))
    then answer ((some (codes "1") ∷ []) ∷ [])
    else (if text_eq sql (select_sql (pos 5941))
        then answer (row_of rice_texts ∷ [])
        else (if text_eq sql (update_sql rice) then answer [] else list_query sql))

instance unfoldable server : Pqxx (Unit {0}) ℤ
server = record {
  connect = λ _. answer tt;
  begin = answer;
  exec = λ sql c. elim (run_query sql) [ answer rows ↦ answer (rows, c) | raise e ↦ raise e ];
  commit = answer;
  finish = λ c. c;
  as_long = read;
  as_short = read;
  as_bool = λ t. answer (text_eq t (codes "1"));
  as_double = read;
}

server-Stocks : Stocks whole server rice rice_texts tt
unfolding server run_query text_eq products_table exists_sql select_sql to_string print_nat stol
    read_magnitude whole first_byte to_nat ◌-ℤ◌ ◌*ℤ◌
server-Stocks = record {
  counted = codes "1";
  counts = refl;
  is_there = refl;
  selects = refl;
  name = refl;
  code = refl;
  price = refl;
  discount = refl;
  tax = refl;
  stock = refl;
  price_to_stock = refl;
  sold_by = refl;
  profit = refl;
  price_after_discount = refl;
}

read_lem : (z : ℤ) → IsLong z → read (to_string z) ≡ answer z
read_lem z h = ap to_answer (stol-to_string z h)

server-Serves : Serves server (rice.name ∷ []) (rice.code ∷ []) tt
unfolding server run_query list_query text_eq products_table count_sql codes_sql names_sql
    exists_sql select_sql update_sql to_string print_nat
server-Serves = record {
  counts = refl;
  lists_codes = refl;
  lists_names = refl;
  long = (omega arith, tt);
  reads = read_lem;
  in_step = refl;
}

abbrev pub scanned : List ℕ
scanned = codes "5941"

pub scanned-AllTyped : AllTyped scanned
unfolding is_print
scanned-AllTyped = (refl, (refl, (refl, (refl, tt))))

pub scanned_code : stol (remove_non_nr scanned) ≡ ok rice.code
unfolding stol read_magnitude remove_non_nr keep_nr is_nr
scanned_code = refl

abbrev unset : Garbage
unset = record { flag = false; mid = 77 }

key_enter_adds_example :
    let w = at_keyboard [] in
    let cart = with_one unset rice rice_texts w in
    key_enter_product unset (rice.code ∷ []) w
    ≡ done tt (record w {
      conn = server.finish tt;
      basket = cart;
      current_tab = basket;
      view = past_end cart w.view;
    })
unfolding server at
key_enter_adds_example =
    key_enter_adds unset rice rice_texts (rice.code ∷ []) (at_keyboard []) tt tt refl refl refl
      server-Stocks refl

-- A terminal without colors.
abbrev till : Terminal
till = record {
  lines = pos 24;
  rows = pos 80;
  cols = pos 80;
  has_colors = false;
  cursor = λ _. (pos 22, pos 8);
}

-- A key for the message, a product that is scanned twice, and `q`, which is confirmed.
abbrev typed_keys : List ℕ
typed_keys = b' ' ∷ (codes "#5941" ++ (key_enter ∷ codes "#5941" ++ (key_enter ∷ b'q' ∷ b'y' ∷ [])))

run_program-Ends_example :
    Run
      (Ends (length typed_keys))
      (run_program ⦃q = server⦄ unset till typed_keys (λ _. false) (pos 6))
run_program-Ends_example =
    run_program-Ends _ ⦃q = server⦄ unset till typed_keys (λ _. false) (pos 6)

run_program-IsDistinct_example :
    Run
      (λ o. IsDistinct (basket_of o))
      (run_program ⦃q = server⦄ unset till typed_keys (λ _. false) (pos 6))
run_program-IsDistinct_example =
    run_program-IsDistinct _ ⦃q = server⦄ unset till typed_keys (λ _. false) (pos 6)
