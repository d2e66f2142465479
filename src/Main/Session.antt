-- ===== src/Main/Session.antt =====
-- A whole round of the loop of src/main.cpp in which a product is scanned.
use cli_pos.Base.{ℕ, ◌^◌, ◌<◌, ◌≡◌, refl, ap, true, false, List, ◌∷◌, ◌++◌, length}
use cli_pos.Base.Int.{ℤ, pos, eq_ℤ}
use cli_pos.Database.Query.{finish}
use cli_pos.Database.Reads.{Serves}
use cli_pos.Database.Row.{RowTexts, Stocks}
use cli_pos.Fault.{answer, ok}
use cli_pos.Input.{remove_non_nr}
use cli_pos.Input.Bound.{AllTyped}
use cli_pos.Product.{Product}
use cli_pos.Receipt.Copies.{Item, cart_of, AllStocked}
use cli_pos.Table.Head.{table_width}
use cli_pos.Table.Draws.{TotalFits}
use cli_pos.Table.Listed.{Listed, codes_listed, AllDrawable}
use cli_pos.Text.{Text, stol}
use cli_pos.Window.{slice, reset_past}
use cli_pos.Words.{to_size}
use cli_pos.World.Double.{Double}
use cli_pos.World.Monad.{key_enter}
use cli_pos.World.Pqxx.{Pqxx}
use cli_pos.World.Returns.{getch_lem}
use cli_pos.World.State.{World, Draw, done, basket}
use cli_pos.Main.Show.{columns_of, codes_of}
use cli_pos.Main.Keys.{Garbage}
use cli_pos.Main.Loop.{round, handle_key}
use cli_pos.Main.Scan.{Sells, with_one, key_scan_adds}
use cli_pos.Main.Dispatch.{handle_key_chooses}
use cli_pos.Main.Round.{listed_on, view_of, total_of, loaded, AllServed, show_shows}

prefix_hit : (prefix : ℤ) → prefix ≡ pos b'#' → eq_ℤ (pos b'#') prefix ≡ true
unfolding eq_ℤ
prefix_hit prefix e = ap (eq_ℤ (pos b'#')) e

module _ {C D : Type 0} ⦃d : Double D⦄ ⦃q : Pqxx C D⦄ where
  -- The world that a scan leaves.
  abbrev pub scanned_in :
      Garbage → Product D → RowTexts → List ℕ → List Draw → C → World C D → World C D
  scanned_in g p t rest scr c w =
      let cart = with_one g p t w in
      record w {
        keys = rest;
        screen = scr;
        conn = c;
        basket = cart;
        current_tab = basket;
        view = reset_past w.view.selection (pos (length cart)) w.view;
      }

  pub prefix_scans :
      (g : Garbage) (p : Product D) (t : RowTexts) (product_codes list : List ℤ) (ks rest : List ℕ)
      (w : World C D) (opened committed : C)
      → w.settings.barcode_prefix ≡ pos b'#'
      → Sells w.current_tab
      → AllTyped ks
      → length ks < 2 ^ 64
      → w.keys ≡ ks ++ (key_enter ∷ rest)
      → stol (remove_non_nr ks) ≡ ok p.code
      → q.begin w.conn ≡ answer opened
      → Stocks d q p t opened
      → q.commit opened ≡ answer committed
      → (scr : List Draw) × (handle_key g product_codes list b'#' w
          ≡ done tt (scanned_in g p t rest scr (q.finish (q.finish committed)) w))
  unfolding finish
  prefix_scans g p t product_codes list ks rest w opened committed x sells a l k n b s c =
      let (scr, r) = key_scan_adds g p t ks rest w opened committed sells a l k n b s c in
      let hit = prefix_hit w.settings.barcode_prefix x in
      (scr, rw (handle_key_chooses g product_codes list b'#' w, hit, r) refl)

  -- A round in which the scanner types `#` and the code of a product of the table, with printable keys
  -- and Enter, goes on with a basket that is what add_product_to_basket makes of it with one of that
  -- product, and shows it, from the top if the selection is past its end. The total is that of the
  -- basket before; nothing else changes but the window's end, the place of the selection in the list,
  -- the screen, the keys that are taken, and the connection, whose two transactions are committed. It
  -- does so where `#` is the barcode prefix, the tab is PRODUCTS or BASKET, the server begins and commits
  -- the transactions, the table of fewer than 2^31 products is listed and sent by it, the basket holds
  -- products of the table, the entries of the tab's list in the window are in range, each of them is a
  -- product that the server sends, with a name that fits the column, which is of less than 2^31, each
  -- quantity that is to be shown is in the basket, and a total that is to be shown fits its line.
  pub round_scans :
      (g : Garbage) (p : Product D) (t : RowTexts) (ks rest : List ℕ) (names : List Text)
      (all shown : List (Listed D)) (items : List (Item D)) (w : World C D)
      (opened committed opened' committed' : C)
      → let codes = codes_listed all in
        let columns = columns_of w.current_tab in
        let m = w.settings.max_name_length in
        let total = total_of (d.of_int (pos 0)) items in
        w.settings.barcode_prefix ≡ pos b'#'
        → Sells w.current_tab
        → AllTyped ks
        → length ks < 2 ^ 64
        → w.keys ≡ b'#' ∷ (ks ++ (key_enter ∷ rest))
        → stol (remove_non_nr ks) ≡ ok p.code
        → q.begin w.conn ≡ answer opened
        → Serves q names codes opened
        → length codes < 2 ^ 31
        → AllServed d q all opened
        → w.basket ≡ cart_of items
        → AllStocked d q items opened
        → slice (listed_on w.current_tab codes (codes_of w.basket)) (view_of codes w)
          ≡ ok (codes_listed shown)
        → to_size m < 2 ^ 31
        → AllDrawable opened w.basket m columns shown
        → (columns.total ≡ true → TotalFits (table_width m columns) total)
        → q.commit opened ≡ answer committed
        → q.begin committed ≡ answer opened'
        → Stocks d q p t opened'
        → q.commit opened' ≡ answer committed'
        → (scr : List Draw) × (round g w
            ≡ done false
                (scanned_in g p t rest scr (q.finish (q.finish committed')) (loaded codes items w)))
  unfolding round
  round_scans g p t ks rest names all shown items w opened committed opened' committed' x sells a n
        k e b s small h f st sl l dr tf c b' s' c' =
      let codes = codes_listed all in
      let (scr, shows) =
        show_shows names all shown items w opened committed b s small h f st sl l dr tf c in
      let w₁ = record (loaded codes items w) { screen = scr; conn = committed } in
      let typed = ks ++ (key_enter ∷ rest) in
      let (scr', scans) =
        prefix_scans g p t codes (codes_listed shown) ks rest (record w₁ { keys = typed }) opened'
          committed' x sells a n refl e b' s' c' in
      (scr', rw (shows, getch_lem b'#' typed w₁ k, scans) refl)
