-- ===== src/Sale/Entered.antt =====
-- The rounds of a sale that enter a product: by the scanner, or by a search for its name.
use mathlib.Core.List.{Memᴰ}
use cli_pos.Base.{
  ◌++◌, Bool-cases, inl, inr, leb, ◌≤◌, ℕ, ◌<◌, ◌^◌, ◌≡◌, refl, ap, false, List, ◌∷◌, length,
}
use cli_pos.Base.Int.{ℤ, pos, eq_ℤ}
use cli_pos.Database.Query.{finish}
use cli_pos.Database.Reads.{Serves}
use cli_pos.Database.Row.{Stocks}
use cli_pos.Fault.{answer}
use cli_pos.Main.Dispatch.{handle_key_chooses}
use cli_pos.Main.Enter.{past_end}
use cli_pos.Main.Found.{with_product, key_search_adds}
use cli_pos.Main.Keys.{Garbage}
use cli_pos.Main.Loop.{round, handle_key}
use cli_pos.Main.Round.{loaded}
use cli_pos.Main.Scan.{with_one}
use cli_pos.Receipt.Copies.{Item}
use cli_pos.Sale.Goods.{
  add_item, add_item-InTable, Scan, IsScan, Entry, IsEntered, by_scanner, by_name, entry_keys,
}
use cli_pos.Sale.Rounds.{round_scanned, added_lem, Keeps, AtTill, SumFits, till_shows, top_lem}
use cli_pos.Sale.Till.{Memᴰ-AllFit, IsSteady, rows_of}
use cli_pos.Table.Listed.{Listed, codes_listed}
use cli_pos.Text.{Text}
use cli_pos.Words.{to_size}
use cli_pos.World.Double.{Double}
use cli_pos.World.Monad.{key_enter}
use cli_pos.World.Pqxx.{Pqxx}
use cli_pos.World.Returns.{getch_lem}
use cli_pos.World.State.{BasketProduct, View, World, Draw, done}

prefix_miss : (prefix : ℤ) → prefix ≡ pos b'#' → eq_ℤ (pos key_enter) prefix ≡ false
unfolding eq_ℤ
prefix_miss prefix e = ap (eq_ℤ (pos key_enter)) e

past_end_lem :
    {D : Type 0} (cart : List (BasketProduct D)) (v : View)
    → v.start ≡ pos 0
    → (past_end cart v).start ≡ pos 0
past_end_lem cart v e = elim (Bool-cases (leb (length cart) (to_size v.indexed_selection))) [
  | inl past ↦ rw past refl
  | inr within ↦ rw within e
]

module _ {C D : Type 0} ⦃d : Double D⦄ ⦃q : Pqxx C D⦄ (names : List Text) (all : List (Listed D))
    (small : length (codes_listed all) < 2 ^ 31) {Idle Open : C → Type 0}
    (steady : IsSteady d q names all Idle Open) (g : Garbage) where
  search_lem :
      (list : List ℤ) (x : Listed D) (i : ℕ) (rest : List ℕ) (w : World C D) (opened : C)
      → w.settings.barcode_prefix ≡ pos b'#'
      → IsEntered names all x (by_name i)
      → length x.product.name ≤ to_size w.settings.max_name_length
      → to_size w.settings.max_name_length < 2 ^ 31
      → w.keys ≡ x.product.name ++ (key_enter ∷ key_enter ∷ rest)
      → q.begin w.conn ≡ answer opened
      → Serves q names (codes_listed all) opened
      → Stocks d q x.product x.texts opened
      → (scr : List Draw) × (handle_key g (codes_listed all) list b'/' w
          ≡ done tt (
              with_product g x.product x.texts
                (record w { keys = rest; screen = scr; conn = q.finish (q.finish opened) })))
  unfolding finish
  search_lem list x i rest w opened p (printable, ascending, name, code) fits column k b s r =
      let (scr, e) =
        key_search_adds g x.product x.texts names (codes_listed all) i rest b'/' w opened printable
          fits column k b s small ascending name code r in
      let miss = prefix_miss w.settings.barcode_prefix p in
      (scr, rw (handle_key_chooses g (codes_listed all) list b'/' w, e, miss) refl)

  -- With the flag of add_product_to_basket false, a search for the name makes a round that adds one of
  -- the product.
  round_searched :
      (x : Listed D) (i : ℕ) (rest : List ℕ) (items : List (Item D)) (w : World C D)
      → g.flag ≡ false
      → Memᴰ x all
      → IsEntered names all x (by_name i)
      → AtTill all Idle items w
      → SumFits w.settings.max_name_length items
      → w.keys ≡ entry_keys x (by_name i) rest
      → (w' : World C D) × (round g w ≡ done false w')
        × (w'.keys ≡ rest)
        × Keeps w w'
        × AtTill all Idle (add_item x items) w'
  unfolding round
  round_searched x i rest items w flag known entered t fits k =
      let (n, room, scr, c, shows, idle) = till_shows names all small steady items w t fits in
      let shown = rows_of all w.current_tab n items in
      let w₁ = record (loaded (codes_listed all) items w) { screen = scr; conn = c } in
      let typed = x.product.name ++ (key_enter ∷ key_enter ∷ rest) in
      let (opened, b, o) = steady.opens c idle in
      let name_fits = Memᴰ-AllFit w.settings.max_name_length all x t.names_fit known in
      let (scr', adds) =
        search_lem (codes_listed shown) x i rest (record w₁ { keys = typed }) opened t.prefix
          entered name_fits t.column refl b (steady.lists opened o)
          (steady.sends opened o x known) in
      let left = q.finish (q.finish opened) in
      let w' =
        with_product g x.product x.texts (record w₁ { keys = rest; screen = scr'; conn = left }) in
      (
        w',
        rw (shows, getch_lem b'/' typed w₁ k, adds) refl,
        refl,
        record { settings_kept = refl; device_kept = refl; printed_kept = refl },
        record {
          sells = tt;
          filled = added_lem names all small steady g x items w flag t.filled;
          in_table = add_item-InTable all x items known t.in_table;
          at_top =
              past_end_lem (with_one g x.product x.texts w) w₁.view
                (top_lem names all small steady g w t.at_top);
          idle = steady.finishes _ (steady.gives_up opened o);
          prefix = t.prefix;
          most = t.most;
          room = t.room;
          column = t.column;
          names_fit = t.names_fit;
        },
      )

  -- With the flag of add_product_to_basket false, the keys that enter a product make a round that adds one
  -- of it.
  pub round_enters :
      (s : Scan D) (rest : List ℕ) (items : List (Item D)) (w : World C D)
      → g.flag ≡ false
      → IsScan names all s
      → AtTill all Idle items w
      → SumFits w.settings.max_name_length items
      → w.keys ≡ entry_keys s.listed s.entry rest
      → (w' : World C D) × (round g w ≡ done false w')
        × (w'.keys ≡ rest)
        × Keeps w w'
        × AtTill all Idle (add_item s.listed items) w'
  round_enters s rest items w flag scan t fits k = entered_lem s.entry scan.entered k
    where
      entered_lem :
          (e : Entry)
          → IsEntered names all s.listed e
          → w.keys ≡ entry_keys s.listed e rest
          → (w' : World C D) × (round g w ≡ done false w')
            × (w'.keys ≡ rest)
            × Keeps w w'
            × AtTill all Idle (add_item s.listed items) w'
      entered_lem (by_scanner ks) a k =
          round_scanned names all small steady g s.listed ks rest items w flag scan.in_table a t
            fits k
      entered_lem (by_name i) a k =
          round_searched s.listed i rest items w flag scan.in_table a t fits k
