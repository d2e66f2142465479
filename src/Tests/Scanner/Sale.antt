-- ===== src/Tests/Scanner/Sale.antt =====
-- A sale of two of a product, one scanned and one searched by its name, with a copy of the receipt.
use mathlib.Core.List.{Memᴰ}
use mathlib.Core.List.Memᴰ
use mathlib.Core.Path.{subst}
use cli_pos.Base.{ℕ, ◌≡◌, refl, sym, arith, List, [], ◌∷◌, true}
use cli_pos.Base.Int.{ℤ, pos, ◌-ℤ◌, ◌+ℤ◌, ◌*ℤ◌, eq_ℤ}
use cli_pos.Database.Row.{Stocks}
use cli_pos.Main.Loop.{main_loop}
use cli_pos.Main.Round.{total_of}
use cli_pos.Receipt.Copies.{copies_from, copies, receipt_text, enough}
use cli_pos.Table.Head.{table_width}
use cli_pos.Table.Row.{nr_length}
use cli_pos.Text.{to_string, print_nat}
use cli_pos.Window.{half}
use cli_pos.World.State.{World, done, initial_settings}
use cli_pos.Sale.Goods.{Scan, IsScan, by_scanner, by_name, add_items}
use cli_pos.Sale.Till.{IsSteady}
use cli_pos.Sale.Rounds.{AtTill}
use cli_pos.Sale.Run.{scan_keys, SumsFit, main_loop_sells}
use cli_pos.Tests.Cart.{rice, whole}
use cli_pos.Tests.Line.{at_keyboard}
use cli_pos.Tests.Scanner.{
  server, unset, rice_texts, server-Stocks, server-Serves, scanned, scanned-AllTyped, scanned_code,
}
use cli_pos.Tests.Scanner.Counter.{shelf}
use cli_pos.Tests.Scanner.Found.{rice-AllTyped, one_name-IsAscending}

abbrev Any : Unit {0} → Type 0
Any c = Unit {0}

server-IsSteady : IsSteady whole server (rice.name ∷ []) shelf Any Any
unfolding server
server-IsSteady = record {
  opens = λ c h. (tt, refl, tt);
  commits = λ c h. (tt, refl, tt);
  finishes = λ c h. tt;
  gives_up = λ c h. tt;
  lists = λ c h. server-Serves;
  sends = λ c h x m.
      subst (λ x. Stocks whole server x.product x.texts tt) (sym (Memᴰ.eq_of_singleton m))
        server-Stocks;
}

abbrev rice_scan : Scan ℤ
rice_scan = record {
  listed = record { product = rice; texts = rice_texts };
  entry = by_scanner scanned;
}

rice_scan-IsScan : IsScan (rice.name ∷ []) shelf rice_scan
rice_scan-IsScan = record {
  in_table = Memᴰ.head refl;
  entered = (scanned-AllTyped, omega arith, scanned_code);
}

-- The same product, by its name.
abbrev rice_search : Scan ℤ
rice_search = record { listed = rice_scan.listed; entry = by_name 0 }

rice_search-IsScan : IsScan (rice.name ∷ []) shelf rice_search
rice_search-IsScan = record {
  in_table = Memᴰ.head refl;
  entered = (rice-AllTyped, one_name-IsAscending, refl, refl);
}

abbrev two_scans : List (Scan ℤ)
two_scans = rice_scan ∷ rice_search ∷ []

abbrev sale_answers : List ℕ
sale_answers = b'y' ∷ b'n' ∷ b'q' ∷ b'x' ∷ []

abbrev before_sale : World (Unit {0}) ℤ
before_sale = record (at_keyboard (scan_keys two_scans (b'T' ∷ b' ' ∷ sale_answers))) {
  device = λ _. true;
}

before_sale-AtTill : AtTill shelf Any [] before_sale
unfolding initial_settings half ◌-ℤ◌
before_sale-AtTill = record {
  sells = tt;
  filled = refl;
  in_table = tt;
  at_top = refl;
  idle = tt;
  prefix = refl;
  most = 8;
  room = refl;
  column = omega arith;
  names_fit = (omega arith, tt);
}

before_sale-SumsFit : SumsFit before_sale.settings.max_name_length two_scans []
unfolding whole table_width nr_length initial_settings to_string print_nat ◌+ℤ◌ ◌-ℤ◌ ◌*ℤ◌ eq_ℤ
before_sale-SumsFit =
    ((omega arith, omega arith), ((omega arith, omega arith), (omega arith, omega arith)))

sale_copies : copies_from 0 sale_answers ≡ enough 2 (b'q' ∷ b'x' ∷ [])
unfolding copies_from
sale_copies = refl

main_loop_sells_example :
    let items = add_items two_scans [] in
    (w' : World (Unit {0}) ℤ) × (main_loop unset before_sale ≡ done tt w')
    × (w'.keys ≡ b'x' ∷ [])
    × (w'.basket ≡ [])
    × (w'.printed
        ≡ copies 2
            (receipt_text before_sale.settings items (total_of (whole.of_int (pos 0)) items))
            before_sale.printed)
main_loop_sells_example =
    main_loop_sells (rice.name ∷ []) shelf (omega arith) server-IsSteady unset refl two_scans b' '
      sale_answers (b'x' ∷ []) 2 before_sale (rice_scan-IsScan, (rice_search-IsScan, tt)) (λ e. cc)
      before_sale-AtTill before_sale-SumsFit refl refl sale_copies
