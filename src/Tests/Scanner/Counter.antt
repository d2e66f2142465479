-- ===== src/Tests/Scanner/Counter.antt =====
-- The tab BASKET with two of a product, and the key `q`.
use cli_pos.Drawing
use cli_pos.Drawing.Same.{draw_product_list-commits}
use cli_pos.Database.Query.{commit}
use cli_pos.Table.Row.{draw_product_list}
use cli_pos.Base.{◌≡◌, refl, arith, List, [], ◌∷◌}
use cli_pos.Base.Int.{ℤ, pos, ◌-ℤ◌, ◌+ℤ◌, ◌*ℤ◌, eq_ℤ}
use cli_pos.Basket.Quantity.{quantity_of}
use cli_pos.Fault.{ok}
use cli_pos.Main.Loop.{main_loop}
use cli_pos.Main.Quit.{quit_keys, main_loop_quits}
use cli_pos.Main.Round.{loaded, view_of, show_shows}
use cli_pos.Main.Show.{show, columns_of, codes_of}
use cli_pos.Receipt.Copies.{cart_of}
use cli_pos.Table.Head.{table_width}
use cli_pos.Table.Listed.{Listed, AllDrawable}
use cli_pos.Table.Row.{nr_length}
use cli_pos.Table.Draws.{TotalFits}
use cli_pos.Window.{slice, slice_from, at, max_products_nr, set_stop, half}
use cli_pos.Text.{to_string, print_nat}
use cli_pos.World.State.{World, Draw, basket, done, initial_settings}
use cli_pos.Tests.Cart.{rice, whole}
use cli_pos.Tests.Line.{at_keyboard}
use cli_pos.Tests.Scanner.{server, unset, rice_texts, server-Stocks, server-Serves}
use cli_pos.Tests.Scanner.Printer.{items, items-AllStocked}
use cli_pos.Base.{◌++◌, ◌==◌, if◌then◌else◌, false}
use cli_pos.Database.Query.{finish}
use cli_pos.Main.Dispatch.{
  first_hit, before_search, behind_search, scan_if_prefix, handle_key_chooses,
}
use cli_pos.Main.Keys.{key_search}
use cli_pos.Main.Loop.{handle_key, round}
use cli_pos.Main.Session.{scanned_in, round_scans}
use cli_pos.World.Monad.{◌>>=◌, ◌>>◌, key_enter}
use cli_pos.World.State.{products}
use cli_pos.Tests.Scanner.{scanned, scanned-AllTyped, scanned_code}

abbrev pub shelf : List (Listed ℤ)
shelf = record { product = rice; texts = rice_texts } ∷ []

abbrev at_counter : World (Unit {0}) ℤ
at_counter = record (at_keyboard (quit_keys 1 (b'x' ∷ []))) {
  basket = cart_of items;
  current_tab = basket;
}

shelf-AllDrawable :
    AllDrawable tt at_counter.basket at_counter.settings.max_name_length (columns_of basket) shelf
unfolding whole server quantity_of initial_settings eq_ℤ
shelf-AllDrawable = (
  record { stocked = server-Stocks; name_fits = omega arith; quantity = pos 2; known = λ _. refl },
  tt,
)

total_fits :
    TotalFits (table_width at_counter.settings.max_name_length (columns_of basket)) (pos 24)
unfolding whole table_width nr_length initial_settings to_string print_nat ◌+ℤ◌ ◌-ℤ◌
total_fits = (omega arith, omega arith)

one_row :
    slice (codes_of at_counter.basket) (view_of (rice.code ∷ []) at_counter) ≡ ok (rice.code ∷ [])
unfolding slice slice_from at max_products_nr set_stop ◌+ℤ◌ ◌-ℤ◌ half
one_row = refl

show_shows_example :
    (scr : List Draw) × (show at_counter
      ≡ done
          (rice.code ∷ [], rice.code ∷ [])
          (record (loaded (rice.code ∷ []) items at_counter) { screen = scr; conn = tt }))
unfolding server initial_settings whole ◌+ℤ◌ ◌*ℤ◌
show_shows_example =
    show_shows (rice.name ∷ []) shelf shelf items at_counter tt tt refl server-Serves (omega arith)
      (server-Stocks, tt) refl items-AllStocked one_row (omega arith) shelf-AllDrawable
      (λ _. total_fits) refl

main_loop_quits_example :
    (scr : List Draw) × (main_loop unset at_counter
      ≡ done tt (record (loaded (rice.code ∷ []) items at_counter) {
        keys = b'x' ∷ [];
        screen = scr;
        conn = server.finish tt;
      }))
unfolding server initial_settings whole ◌+ℤ◌ ◌*ℤ◌
main_loop_quits_example =
    main_loop_quits unset (b'x' ∷ []) (rice.name ∷ []) shelf shelf items at_counter tt tt refl refl
      server-Serves (omega arith) (server-Stocks, tt) refl items-AllStocked one_row (omega arith)
      shelf-AllDrawable (λ _. total_fits) refl

draw_product_list-commits_example :
    let codes = rice.code ∷ [] in
    Drawing.draw_product_list codes (pos 0) (columns_of basket) (pos 24) at_counter
    ≡ (draw_product_list codes (pos 0) (columns_of basket) (pos 24) >> (commit >> finish))
        (record at_counter { conn = tt })
unfolding server
draw_product_list-commits_example =
    draw_product_list-commits (rice.code ∷ []) (pos 0) (columns_of basket) (pos 24) at_counter tt
      refl

handle_key_chooses_example :
    let codes = rice.code ∷ [] in
    handle_key unset codes codes b'w' at_counter
    ≡ (if b'w' == b'/'
          then (key_search unset codes b'w' >>= λ key'.
              first_hit (behind_search codes key') >> (scan_if_prefix unset key' >> finish))
          else (first_hit (before_search unset codes b'w' ++ behind_search codes b'w')
              >> (scan_if_prefix unset b'w' >> finish)))
        at_counter
handle_key_chooses_example =
    handle_key_chooses unset (rice.code ∷ []) (rice.code ∷ []) b'w' at_counter

abbrev at_scanner : World (Unit {0}) ℤ
at_scanner = at_keyboard (b'#' ∷ (scanned ++ (key_enter ∷ b'q' ∷ [])))

shelf-AllDrawable_products :
    AllDrawable tt at_scanner.basket at_scanner.settings.max_name_length (columns_of products) shelf
unfolding initial_settings
shelf-AllDrawable_products = (
  record { stocked = server-Stocks; name_fits = omega arith; quantity = pos 0; known = λ e. cc },
  tt,
)

first_row : slice (rice.code ∷ []) (view_of (rice.code ∷ []) at_scanner) ≡ ok (rice.code ∷ [])
unfolding slice slice_from at max_products_nr set_stop ◌+ℤ◌ ◌-ℤ◌ half
first_row = refl

round_scans_example :
    (scr : List Draw) × (round unset at_scanner
      ≡ done false (
          scanned_in unset rice rice_texts
            (b'q' ∷ [])
            scr
            tt
            (loaded (rice.code ∷ []) [] at_scanner)))
unfolding server initial_settings
round_scans_example =
    round_scans unset rice rice_texts scanned (b'q' ∷ []) (rice.name ∷ []) shelf shelf [] at_scanner
      tt tt tt tt refl tt scanned-AllTyped (omega arith) refl scanned_code refl server-Serves
      (omega arith) (server-Stocks, tt) refl tt first_row (omega arith) shelf-AllDrawable_products
      (λ e. cc) refl refl server-Stocks refl
