-- ===== src/Tests/Scanner/Shop.antt =====
-- A connection to a table in which the price of a product is changed.
mod Price
mod Update
mod Add
use mathlib.Core.List.{Memᴰ}
use mathlib.Core.List.Memᴰ
use mathlib.Core.Path.{subst}
use cli_pos.Base.{
  ℕ, ◌≡◌, refl, sym, arith, Bool, true, false, List, [], ◌∷◌, ◌++◌, some, take, if◌then◌else◌,
}
use cli_pos.Base.Int.{ℤ, pos, ◌-ℤ◌, ◌+ℤ◌, ◌*ℤ◌, eq_ℤ}
use cli_pos.Database.Query.{first_byte}
use cli_pos.Database.Reads.{Serves}
use cli_pos.Database.Row.{RowTexts, row_of, Stocks}
use cli_pos.Database.Statement.{
  products_table, exists_sql, select_sql, update_sql, insert_sql, count_sql, codes_sql, names_sql,
}
use cli_pos.Edit.{Answers, contains_comma, move_option, add_modify_product}
use cli_pos.Edit.Answer.{Answered, plain}
use cli_pos.Edit.Form.{IsFilled, IsMade, IsStored, add_modify_product_writes}
use cli_pos.Fault.{Answer, answer, raise}
use cli_pos.Input.{remove_non_nr, keep_nr, is_nr, erased, typed, pop_back}
use cli_pos.Input.Line.{line, edit, entered}
use cli_pos.Product.{Product, to_nat, to_mesurments}
use cli_pos.Table.Listed.{Listed}
use cli_pos.Text.{Text, codes, text_eq, to_string, print_nat, stol, read_magnitude, is_print}
use cli_pos.Words.{to_short}
use cli_pos.World.Monad.{key_enter}
use cli_pos.Main.Change.{Change}
use cli_pos.Main.Loop.{main_loop}
use cli_pos.Main.Round.{total_of}
use cli_pos.Receipt.Copies.{copies_from, copies, receipt_text, enough}
use cli_pos.Sale.Goods.{Scan, IsScan, add_items}
use cli_pos.Sale.Till.{IsSteady, AllFit}
use cli_pos.Sale.Rounds.{AtTill}
use cli_pos.Sale.Run.{scan_keys, SumsFit}
use cli_pos.Sale.Update.{Changes}
use cli_pos.Sale.Updated.{main_loop_updates}
use cli_pos.Table.Head.{table_width}
use cli_pos.Table.Row.{nr_length}
use cli_pos.Window.{half}
use cli_pos.World.Pick.{pick}
use cli_pos.World.Pqxx.{Pqxx, Rows}
use cli_pos.World.State.{World, Draw, done, initial_settings}
use cli_pos.Tests.Cart.{rice, whole}
use cli_pos.Tests.Line.{at_keyboard}
use cli_pos.Tests.Scanner.{
  server, unset, rice_texts, list_query, read_lem, scanned, scanned-AllTyped, scanned_code,
}
use cli_pos.Tests.Scanner.Counter.{shelf}

-- What is written for the new price, and what is read from the table behind that.
abbrev dear : Product ℤ
dear = record rice { price = pos 15; profit = pos 6 }

abbrev dear_texts : RowTexts
dear_texts = record rice_texts { price = codes "15" }

abbrev dear_shelf : List (Listed ℤ)
dear_shelf =
    record { product = record dear { price_after_discount = pos 15 }; texts = dear_texts } ∷ []

-- A product that is new to the table.
abbrev tea : Product ℤ
tea = record rice {
  name = codes "tea";
  code = pos 17;
  price = pos 4;
  tax = b'B';
  stock = pos 10;
  profit = pos 1;
  price_to_stock = pos 3;
}

unfoldable query : Bool → Text → Answer Rows
query changed sql =
    if text_eq sql (exists_sql (pos 5941))
    then answer ((some (codes "1") ∷ []) ∷ [])
    else (if text_eq sql (select_sql (pos 5941))
        then answer (row_of (if changed then dear_texts else rice_texts) ∷ [])
        else list_query sql)

-- The connection says whether the price is changed.
unfoldable shop : Pqxx Bool ℤ
unfolding server
shop = record {
  connect = λ _. answer false;
  begin = answer;
  exec = λ sql c.
      if text_eq sql (update_sql dear)
      then answer ([], true)
      else (if text_eq sql (exists_sql (pos 17))
          then answer ((some (codes "0") ∷ []) ∷ [], c)
          else (if text_eq sql (insert_sql tea)
              then answer ([], c)
              else elim (query c sql) [ answer rows ↦ answer (rows, c) | raise e ↦ raise e ]));
  commit = answer;
  finish = λ c. c;
  as_long = server.as_long;
  as_short = server.as_short;
  as_bool = server.as_bool;
  as_double = server.as_double;
}

shop-Stocks : Stocks whole shop rice rice_texts false
unfolding server shop query text_eq products_table exists_sql select_sql update_sql insert_sql
    to_string print_nat stol read_magnitude whole first_byte to_nat ◌-ℤ◌ ◌*ℤ◌
shop-Stocks = record {
  counted = codes "1";
  counts = refl;
  is_there = refl;
  selects = refl;
  name = refl;
  code = refl;
  price = refl;
  discount = refl;
  tax = refl;
  stock = refl;
  price_to_stock = refl;
  sold_by = refl;
  profit = refl;
  price_after_discount = refl;
}

dear-Stocks : Stocks whole shop (record dear { price_after_discount = pos 15 }) dear_texts true
unfolding server shop query text_eq products_table exists_sql select_sql update_sql insert_sql
    to_string print_nat stol read_magnitude whole first_byte to_nat ◌-ℤ◌ ◌*ℤ◌
dear-Stocks = record {
  counted = codes "1";
  counts = refl;
  is_there = refl;
  selects = refl;
  name = refl;
  code = refl;
  price = refl;
  discount = refl;
  tax = refl;
  stock = refl;
  price_to_stock = refl;
  sold_by = refl;
  profit = refl;
  price_after_discount = refl;
}

shop-Serves : (c : Bool) → Serves shop (rice.name ∷ []) (rice.code ∷ []) c
unfolding server shop query list_query text_eq products_table count_sql codes_sql names_sql
    exists_sql select_sql update_sql insert_sql to_string print_nat whole to_nat
shop-Serves c = record {
  counts = refl;
  lists_codes = refl;
  lists_names = refl;
  long = (omega arith, tt);
  reads = read_lem;
  in_step = refl;
}

abbrev at_shop : List ℕ → World Bool ℤ
at_shop keys =
    let w = at_keyboard keys in
    record {
      terminal = w.terminal;
      keys = w.keys;
      screen = [];
      conn = false;
      device = λ _. true;
      printed = [];
      settings = w.settings;
      basket = [];
      current_tab = w.current_tab;
      view = w.view;
      total = pos 0;
    }
