-- ===== src/Sale/Rounds.antt =====
-- The till between two rounds of a sale, the round in which a product is scanned, and the one that leaves
-- the program.
use mathlib.Core.List.{Memᴰ}
use mathlib.Core.Path.{subst}
use cli_pos.Base.{
  ℕ, suc, ◌<◌, ◌^◌, ◌≡◌, refl, ap, sym, ◌∙◌, Bool-cases, inl, inr, true, false, List, ◌∷◌, ◌++◌,
  length,
}
use cli_pos.Base.Int.{ℤ, pos, ◌-ℤ◌}
use cli_pos.Basket.{add_product_to_basket}
use cli_pos.Fault.{ok}
use cli_pos.Main.Quit.{quit_keys, round_quits}
use cli_pos.Main.Cursor.{size_of}
use cli_pos.Main.Keys.{Garbage}
use cli_pos.Main.Loop.{round}
use cli_pos.Main.Round.{listed_on, view_of, fitted, total_of, loaded, show_shows}
use cli_pos.Main.Scan.{Sells, with_one}
use cli_pos.Main.Session.{scanned_in, prefix_scans}
use cli_pos.Main.Show.{columns_of, codes_of, show}
use cli_pos.Receipt.Copies.{Item, cart_of}
use cli_pos.Table.Draws.{TotalFits}
use cli_pos.Table.Head.{table_width}
use cli_pos.Table.Listed.{Listed, codes_listed, AllDrawable}
use cli_pos.Text.{Text}
use cli_pos.Window.{geb_ℤ, set_stop, reset_past, half, slice, max_products_nr}
use cli_pos.Words.{to_size}
use cli_pos.World.Double.{Double}
use cli_pos.World.Monad.{key_enter}
use cli_pos.World.Pqxx.{Pqxx}
use cli_pos.World.Returns.{getch_lem}
use cli_pos.World.State.{World, View, Draw, basket, done, message_section_lines}
use cli_pos.Sale.Goods.{IsEntered, by_scanner, AllInTable, add_item, add_item-InTable, add_item_lem}
use cli_pos.Sale.Till.{
  IsSteady, AllFit, rows_of, rows_lem, size_lem, row_lem, total_lem, window_lem, room_lem,
  served_lem, stocked_lem, drawable_lem,
}

-- What holds of the till between two rounds: a tab that sells, these products in the basket, the top of
-- the list in the window, an idle connection, the prefix `#`, a screen with room for a row of each tab,
-- and a column of names that all names of the table fit.
pub record AtTill {C D : Type 0} (all : List (Listed D)) (Idle : C → Type 0) (items : List (Item D))
    (w : World C D) : Type 0 where
  pub sells : Sells w.current_tab
  pub filled : w.basket ≡ cart_of items
  pub in_table : AllInTable all items
  pub at_top : w.view.start ≡ pos 0
  pub idle : Idle w.conn
  pub prefix : w.settings.barcode_prefix ≡ pos b'#'
  pub most : ℕ
  pub room : half (w.terminal.lines -ℤ pos 3 -ℤ pos message_section_lines) ≡ pos (suc most)
  pub column : to_size w.settings.max_name_length < 2 ^ 31
  pub names_fit : AllFit w.settings.max_name_length all

-- The sum of the basket fits the line for it.
abbrev pub SumFits : {D : Type 0} → ⦃d : Double D⦄ → ℤ → List (Item D) → Type 0
SumFits ⦃d⦄ m items =
    TotalFits (table_width m (columns_of basket)) (total_of (d.of_int (pos 0)) items)

module _ {C D : Type 0} ⦃d : Double D⦄ ⦃q : Pqxx C D⦄ (names : List Text) (all : List (Listed D))
    (small : length (codes_listed all) < 2 ^ 31) {Idle Open : C → Type 0}
    (steady : IsSteady d q names all Idle Open) where
  till_slice :
      (items : List (Item D)) (w : World C D) (n : ℕ)
      → w.basket ≡ cart_of items
      → w.view.start ≡ pos 0
      → max_products_nr w.terminal.lines w.current_tab ≡ pos n
      → slice
          (listed_on w.current_tab (codes_listed all) (codes_of w.basket))
          (view_of (codes_listed all) w)
        ≡ ok (codes_listed (rows_of all w.current_tab n items))
  till_slice items w n e top room =
      let list = listed_on w.current_tab (codes_listed all) (codes_of (cart_of items)) in
      rw (e, room, size_lem all w.current_tab items, ← rows_lem all w.current_tab n items)
        (window_lem n list w.view top)

  -- At the till a round shows the first rows, as many as the screen has room for, and leaves an idle
  -- connection.
  pub till_shows :
      (items : List (Item D)) (w : World C D)
      → AtTill all Idle items w
      → SumFits w.settings.max_name_length items
      → (n : ℕ) × (max_products_nr w.terminal.lines w.current_tab ≡ pos n)
        × (scr : List Draw) × (committed : C) × (show w
            ≡ done
                (codes_listed all, codes_listed (rows_of all w.current_tab n items))
                (record (loaded (codes_listed all) items w) { screen = scr; conn = committed }))
        × Idle committed
  till_shows items w t fits =
      let (opened, b, o) = steady.opens w.conn t.idle in
      let (committed, c, i) = steady.commits opened o in
      let (n, room) = room_lem w.terminal.lines t.most w.current_tab t.room in
      let shown = rows_of all w.current_tab n items in
      let m = w.settings.max_name_length in
      let columns = columns_of w.current_tab in
      let (scr, shows) =
        show_shows names all shown items w opened committed b (steady.lists opened o) small
          (served_lem d q opened all (steady.sends opened o)) t.filled
          (stocked_lem d q opened all items (steady.sends opened o) t.in_table)
          (till_slice items w n t.filled t.at_top room) t.column
          (subst (λ cart. AllDrawable opened cart m columns shown) (sym t.filled)
            (drawable_lem opened (cart_of items) m columns shown (λ x k.
              row_lem all w.current_tab n items m opened x t.sells t.names_fit t.in_table
                (steady.sends opened o) k)))
          (total_lem w.current_tab m (total_of (d.of_int (pos 0)) items) t.sells fits) c in
      (n, room, scr, committed, shows, i)

-- What a sale leaves as it is.
pub record Keeps {C D : Type 0} (w w' : World C D) : Type 0 where
  pub settings_kept : w'.settings ≡ w.settings
  pub device_kept : w'.device ≡ w.device
  pub printed_kept : w'.printed ≡ w.printed

pub start_lem : (most size : ℤ) (v : View) → v.start ≡ pos 0 → (fitted most size v).start ≡ pos 0
unfolding set_stop
start_lem most size v e = elim (Bool-cases (geb_ℤ most size)) [
  | inl room ↦ rw room e
  | inr full ↦ rw full e
]

reset_lem : (place size : ℤ) (v : View) → v.start ≡ pos 0 → (reset_past place size v).start ≡ pos 0
unfolding reset_past
reset_lem place size v e = elim (Bool-cases (geb_ℤ place size)) [
  | inl past ↦ rw past refl
  | inr within ↦ rw within e
]

module _ {C D : Type 0} ⦃d : Double D⦄ ⦃q : Pqxx C D⦄ (names : List Text) (all : List (Listed D))
    (small : length (codes_listed all) < 2 ^ 31) {Idle Open : C → Type 0}
    (steady : IsSteady d q names all Idle Open) (g : Garbage) where
  pub top_lem :
      (w : World C D) → w.view.start ≡ pos 0 → (view_of (codes_listed all) w).start ≡ pos 0
  top_lem w e =
      start_lem (max_products_nr w.terminal.lines w.current_tab) (size_of (codes_listed all) w)
        w.view e

  -- With the flag of add_product_to_basket false, one of a product goes into the basket.
  pub added_lem :
      (x : Listed D) (items : List (Item D)) (w : World C D)
      → g.flag ≡ false
      → w.basket ≡ cart_of items
      → with_one g x.product x.texts w ≡ cart_of (add_item x items)
  added_lem x items w flag filled =
      ap (λ f. add_product_to_basket f x.product (d.of_int (pos 1)) w.basket) flag
      ∙ ap (add_product_to_basket false x.product (d.of_int (pos 1))) filled
      ∙ add_item_lem x items

  -- With the flag of add_product_to_basket false, a scan makes a round that adds one of the product.
  pub round_scanned :
      (x : Listed D) (ks rest : List ℕ) (items : List (Item D)) (w : World C D)
      → g.flag ≡ false
      → Memᴰ x all
      → IsEntered names all x (by_scanner ks)
      → AtTill all Idle items w
      → SumFits w.settings.max_name_length items
      → w.keys ≡ b'#' ∷ (ks ++ (key_enter ∷ rest))
      → (w' : World C D) × (round g w ≡ done false w')
        × (w'.keys ≡ rest)
        × Keeps w w'
        × AtTill all Idle (add_item x items) w'
  unfolding round
  round_scanned x ks rest items w flag known entered t fits k =
      let (n, room, scr, c, shows, i) = till_shows names all small steady items w t fits in
      let shown = rows_of all w.current_tab n items in
      let w₁ = record (loaded (codes_listed all) items w) { screen = scr; conn = c } in
      let typed = ks ++ (key_enter ∷ rest) in
      let p = x.product in
      let (opened, b, o) = steady.opens c i in
      let (committed, c', i') = steady.commits opened o in
      let (scr', scans) =
        prefix_scans g p x.texts (codes_listed all) (codes_listed shown) ks rest
          (record w₁ { keys = typed }) opened committed t.prefix t.sells entered.0 entered.1 refl
          entered.2 b (steady.sends opened o x known) c' in
      let left = q.finish (q.finish committed) in
      let w' = scanned_in g p x.texts rest scr' left (record w₁ { keys = typed }) in
      (
        w',
        rw (shows, getch_lem b'#' typed w₁ k, scans) refl,
        refl,
        record { settings_kept = refl; device_kept = refl; printed_kept = refl },
        record {
          sells = tt;
          filled = added_lem x items w flag t.filled;
          in_table = add_item-InTable all x items known t.in_table;
          at_top = reset_lem _ _ _ (top_lem w t.at_top);
          idle = steady.finishes _ (steady.finishes committed i');
          prefix = t.prefix;
          most = t.most;
          room = t.room;
          column = t.column;
          names_fit = t.names_fit;
        },
      )

  -- The key `q` ends the program, behind a `y` if there is a product in the basket.
  pub round_leaves :
      (items : List (Item D)) (w : World C D) (rest : List ℕ)
      → AtTill all Idle items w
      → SumFits w.settings.max_name_length items
      → w.keys ≡ quit_keys (length w.basket) rest
      → (w' : World C D) × (round g w ≡ done true w')
        × (w'.keys ≡ rest)
        × (w'.basket ≡ w.basket)
        × (w'.total ≡ total_of (d.of_int (pos 0)) items)
        × (w'.printed ≡ w.printed)
  round_leaves items w rest t fits k =
      let (n, room, scr, left, shows, i) = till_shows names all small steady items w t fits in
      let shown = rows_of all w.current_tab n items in
      let w₁ = record (loaded (codes_listed all) items w) { screen = scr; conn = left } in
      let (scr', quits) = round_quits g rest (codes_listed all, codes_listed shown) w w₁ shows k in
      let w' = record w₁ { keys = rest; screen = scr'; conn = q.finish left } in
      (w', quits, refl, refl, refl, refl)
