-- ===== src/Tests/Shelf.antt =====
-- A connection to a table of three products.
use cli_pos.Base.{◌≡◌, refl, ap, List, [], ◌∷◌, arith, length, if◌then◌else◌}
use cli_pos.Base.Int.{ℤ, pos}
use cli_pos.Fault.{Answer, answer, raise, no_number, failed, Result, ok, err}
use cli_pos.Text.{Text, codes, text_eq, to_string, stol}
use cli_pos.Text.RoundTrip.{IsLong, stol-to_string}
use cli_pos.World.Pqxx.{Pqxx, Rows}
use cli_pos.World.State.{done}
use cli_pos.Database.Statement.{products_table, count_sql, codes_sql, names_sql}
use cli_pos.Database.Query.{stock_size, code_list, name_list}
use cli_pos.Database.Reads.{Serves, column_of, lists-Serves}
use cli_pos.Main.Keys.{key_cursor_down}
use cli_pos.Window.{cursor_down}
use cli_pos.Main.Cursor.{size_of, key_cursor_down_moves}
use cli_pos.Tests.Cart.{whole}
use cli_pos.Tests.Line.{at_keyboard}

abbrev stocked_names : List Text
stocked_names = codes "bread" ∷ codes "milk" ∷ codes "tea" ∷ []

abbrev stocked_codes : List ℤ
stocked_codes = pos 594_017 ∷ pos 0 ∷ pos 9_780_201_310_059 ∷ []

abbrev to_answer : Result ℤ → Answer ℤ
to_answer (ok z) = answer z
to_answer (err _) = raise no_number

abbrev as_long : Text → Answer ℤ
as_long t = to_answer (stol t)

as_long_lem : (z : ℤ) → IsLong z → as_long (to_string z) ≡ answer z
as_long_lem z h = ap to_answer (stol-to_string z h)

-- The three queries that the lists are read with.
unfoldable run_query : Text → Answer Rows
run_query sql =
    if text_eq sql count_sql
    then answer (column_of to_string (pos (length stocked_codes) ∷ []))
    else (if text_eq sql codes_sql
        then answer (column_of to_string stocked_codes)
        else (if text_eq sql names_sql
            then answer (column_of (λ t. t) stocked_names)
            else raise failed))

instance unfoldable server : Pqxx (Unit {0}) ℤ
server = record {
  connect = λ _. answer tt;
  begin = answer;
  exec = λ sql c. elim (run_query sql) [ answer rows ↦ answer (rows, c) | raise e ↦ raise e ];
  commit = answer;
  finish = λ c. c;
  as_long = as_long;
  as_short = as_long;
  as_bool = λ t. answer (text_eq t (codes "1"));
  as_double = as_long;
}

server-Serves : Serves server stocked_names stocked_codes tt
unfolding server run_query text_eq products_table count_sql codes_sql names_sql
server-Serves = record {
  counts = refl;
  lists_codes = refl;
  lists_names = refl;
  long = (omega arith, (omega arith, (omega arith, tt)));
  reads = as_long_lem;
  in_step = refl;
}

lists-Serves_example :
    let w = at_keyboard [] in
    (stock_size w ≡ done (pos (length stocked_codes)) w)
    × (code_list w ≡ done stocked_codes w)
    × (name_list w ≡ done stocked_names w)
lists-Serves_example =
    lists-Serves stocked_names stocked_codes (at_keyboard []) server-Serves (omega arith)

key_cursor_down_moves_example :
    let w = at_keyboard [] in
    key_cursor_down stocked_codes w
    ≡ done tt (record w {
      conn = server.finish tt;
      view = cursor_down (length stocked_codes) (size_of stocked_codes w) w.view;
    })
unfolding server
key_cursor_down_moves_example =
    key_cursor_down_moves stocked_names stocked_codes (omega arith) stocked_codes (at_keyboard [])
      tt tt refl server-Serves refl
