-- ===== src/Sale/Checkout.antt =====
-- A round of a sale that prints the receipt.
use cli_pos.Base.{ℕ, ◌<◌, ◌^◌, ◌≡◌, refl, ap, true, false, List, [], ◌∷◌, length, ◌==◌}
use cli_pos.Base.Int.{ℤ, pos, eq_ℤ}
use cli_pos.Fault.{answer}
use cli_pos.Database.Query.{finish}
use cli_pos.Main.Checkout.{key_checkout_empties}
use cli_pos.Main.Dispatch.{handle_key_chooses}
use cli_pos.Receipt.Print.{receipt_device}
use cli_pos.Main.Keys.{Garbage}
use cli_pos.Main.Loop.{round, handle_key}
use cli_pos.Main.Round.{total_of, loaded}
use cli_pos.Receipt.Copies.{Item, cart_of, AllStocked, copies_from, copies, receipt_text, enough}
use cli_pos.Table.Listed.{Listed, codes_listed}
use cli_pos.Text.{Text}
use cli_pos.World.Double.{Double}
use cli_pos.World.Pqxx.{Pqxx}
use cli_pos.World.Returns.{getch_lem}
use cli_pos.World.State.{World, Draw, done}
use cli_pos.Sale.Till.{IsSteady, rows_of, stocked_lem}
use cli_pos.Sale.Rounds.{AtTill, SumFits, till_shows, top_lem}

prefix_miss : (prefix : ℤ) → prefix ≡ pos b'#' → eq_ℤ (pos b'T') prefix ≡ false
unfolding eq_ℤ
prefix_miss prefix e = ap (eq_ℤ (pos b'T')) e

module _ {C D : Type 0} ⦃d : Double D⦄ ⦃q : Pqxx C D⦄ (names : List Text) (all : List (Listed D))
    (small : length (codes_listed all) < 2 ^ 31) {Idle Open : C → Type 0}
    (steady : IsSteady d q names all Idle Open) (g : Garbage) where
  checkout_lem :
      (product_codes list : List ℤ) (items : List (Item D)) (w : World C D) (opened : C) (key : ℕ)
      (keys rest : List ℕ) (n : ℕ)
      → w.settings.barcode_prefix ≡ pos b'#'
      → q.begin w.conn ≡ answer opened
      → AllStocked d q items opened
      → w.basket ≡ cart_of items
      → (length w.basket == 0) ≡ false
      → w.device receipt_device ≡ true
      → w.keys ≡ key ∷ keys
      → copies_from 0 keys ≡ enough n rest
      → (scr : List Draw) × (handle_key g product_codes list b'T' w
          ≡ done tt (record w {
            keys = rest;
            screen = scr;
            conn = q.finish (q.finish opened);
            printed = copies n (receipt_text w.settings items w.total) w.printed;
            basket = [];
            total = d.of_int (pos 0);
          }))
  unfolding finish
  checkout_lem product_codes list items w opened key keys rest n x b st e full opens typed c =
      let (scr, r) =
        key_checkout_empties items w opened key keys rest n b st e full opens typed c in
      let miss = prefix_miss w.settings.barcode_prefix x in
      (scr, rw (handle_key_chooses g product_codes list b'T' w, r, miss) refl)

  -- The key `T`, a key for its message, and the answers to the questions for another copy make a round
  -- that prints the receipt of what is in the basket, with its sum, and empties the basket.
  pub round_checks_out :
      (items : List (Item D)) (w : World C D) (key : ℕ) (keys rest : List ℕ) (n : ℕ)
      → AtTill all Idle items w
      → SumFits w.settings.max_name_length items
      → (length w.basket == 0) ≡ false
      → w.device receipt_device ≡ true
      → w.keys ≡ b'T' ∷ key ∷ keys
      → copies_from 0 keys ≡ enough n rest
      → (w' : World C D) × (round g w ≡ done false w')
        × (w'.keys ≡ rest)
        × (w'.settings ≡ w.settings)
        × (w'.printed
            ≡ copies n
                (receipt_text w.settings items (total_of (d.of_int (pos 0)) items))
                w.printed)
        × AtTill all Idle [] w'
  unfolding round
  round_checks_out items w key keys rest n t fits full opens k c =
      let (rows, room, scr, left, shows, i) = till_shows names all small steady items w t fits in
      let shown = rows_of all w.current_tab rows items in
      let w₁ = record (loaded (codes_listed all) items w) { screen = scr; conn = left } in
      let typed = key ∷ keys in
      let w₂ = record w₁ { keys = typed } in
      let (opened, b, o) = steady.opens left i in
      let (scr', r) =
        checkout_lem (codes_listed all) (codes_listed shown) items w₂ opened key keys rest n
          t.prefix b (stocked_lem d q opened all items (steady.sends opened o) t.in_table) t.filled
          full opens refl c in
      let w' = record w₁ {
        keys = rest;
        screen = scr';
        conn = q.finish (q.finish opened);
        printed =
            copies n (receipt_text w.settings items (total_of (d.of_int (pos 0)) items)) w.printed;
        basket = [];
        total = d.of_int (pos 0);
      } in
      (
        w',
        rw (shows, getch_lem b'T' typed w₁ k, r) refl,
        refl,
        refl,
        refl,
        record {
          sells = t.sells;
          filled = refl;
          in_table = tt;
          at_top = top_lem names all small steady g w t.at_top;
          idle = steady.finishes _ (steady.gives_up opened o);
          prefix = t.prefix;
          most = t.most;
          room = t.room;
          column = t.column;
          names_fit = t.names_fit;
        },
      )
