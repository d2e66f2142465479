-- ===== src/Sale/Update.antt =====
-- A product that is modified before a sale: the key `m` in the loop of src/main.cpp, and the rounds behind
-- it, on the table that it leaves.
use cli_pos.Base.{
  ℕ, zero, suc, ◌<◌, ◌≤◌, ◌^◌, ◌≡◌, refl, ap, true, false, List, [], ◌∷◌, some, length, get_elem?,
  take, arith, Bool-cases, inl, inr,
}
use cli_pos.Base.Int.{ℤ, pos, eq_ℤ, ◌-ℤ◌}
use cli_pos.Database.Query.{finish}
use cli_pos.Fault.{answer, ok}
use cli_pos.Main.Change.{Change, key_modify_writes}
use cli_pos.Main.Cursor.{size_of}
use cli_pos.Main.Dispatch.{handle_key_chooses}
use cli_pos.Main.Keys.{Garbage}
use cli_pos.Main.Loop.{round, handle_key}
use cli_pos.Main.Round.{fitted, loaded}
use cli_pos.Product.{Product}
use cli_pos.Table.Listed.{Listed, codes_listed}
use cli_pos.Text.{Text}
use cli_pos.Window.{at, is_zero, geb_ℤ, set_stop, max_products_nr, half}
use cli_pos.Window.Slice.{at_lem}
use cli_pos.World.Double.{Double}
use cli_pos.World.Pqxx.{Pqxx}
use cli_pos.World.Returns.{getch_lem}
use cli_pos.World.State.{World, View, Draw, Tab, products, done, message_section_lines}
use cli_pos.Sale.Till.{IsSteady, AllFit, rows_of}
use cli_pos.Sale.Rounds.{AtTill, SumFits, Keeps, till_shows, top_lem}

selection_lem : (most size : ℤ) (v : View) → (fitted most size v).selection ≡ v.selection
unfolding set_stop
selection_lem most size v = elim (Bool-cases (geb_ℤ most size)) [
  | inl room ↦ rw room refl
  | inr full ↦ rw full refl
]

no_scan : (prefix : ℤ) → prefix ≡ pos b'#' → eq_ℤ (pos b'm') prefix ≡ false
unfolding eq_ℤ
no_scan prefix e = ap (eq_ℤ (pos b'm')) e

module _ {D : Type 0} where
  -- The code of a product that is among the rows that are shown.
  listed_at :
      (xs : List (Listed D)) (n i : ℕ) (x : Listed D)
      → i < n
      → get_elem? xs i ≡ some x
      → get_elem? (codes_listed (take n xs)) i ≡ some x.product.code
  listed_at xs zero i x h e = elim h [ ]
  listed_at [] (suc n) i x h e = cc
  listed_at (y ∷ xs) (suc n) zero x h e =
      let same : y ≡ x = cc in ap (λ y. some y.product.code) same
  listed_at (y ∷ xs) (suc n) (suc i) x h e = listed_at xs n i x (omega arith) e

  not_empty :
      (xs : List (Listed D)) (i : ℕ) (x : Listed D)
      → get_elem? xs i ≡ some x
      → is_zero (pos (length (codes_listed xs))) ≡ false
  unfolding eq_ℤ
  not_empty [] i x e = cc
  not_empty (y ∷ xs) i x e = ground arith

  -- The code of the selected product, on the tab PRODUCTS.
  selected_at :
      (all : List (Listed D)) (tab : Tab) (lines : ℤ) (n most i : ℕ) (x : Listed D)
      → tab ≡ products
      → max_products_nr lines tab ≡ pos n
      → half (lines -ℤ pos 3 -ℤ pos message_section_lines) ≡ pos (suc most)
      → i ≤ most
      → get_elem? all i ≡ some x
      → at (codes_listed (rows_of all tab n [])) (pos i) ≡ ok x.product.code
  unfolding max_products_nr
  selected_at all tab lines n most i x on rows room h e =
      let rows' = rw on at rows in
      let same : n ≡ suc most = cc in
      rw on
        (at_lem (codes_listed (take n all)) i x.product.code (listed_at all n i x (omega arith) e))

-- In every transaction of the first kind the answers, of the user and of the server, make of the product
-- `current` the product `p`, and lead to an idle connection of the second kind.
abbrev pub Changes :
    {C D : Type 0}
    → Double D
    → Pqxx C D
    → (C → Type 0)
    → (C → Type 0)
    → ℤ
    → Product D
    → Product D
    → List ℕ
    → List ℕ
    → Type 0
Changes {C} d q Open Idle' m current p keys left =
    (opened : C)
    → Open opened
    → (committed : C) × Change d q m current p true keys left opened committed × Idle' committed

module _ {C D : Type 0} ⦃d : Double D⦄ ⦃q : Pqxx C D⦄ (names names' : List Text)
    (all all' : List (Listed D)) (small : length (codes_listed all) < 2 ^ 31)
    (small' : length (codes_listed all') < 2 ^ 31) {Idle Open Idle' Open' : C → Type 0}
    (steady : IsSteady d q names all Idle Open) (steady' : IsSteady d q names' all' Idle' Open')
    (g : Garbage) where
  modify_lem :
      (product_codes list : List ℤ) (current p : Product D) (left : List ℕ) (w : World C D)
      (opened committed : C)
      → w.settings.barcode_prefix ≡ pos b'#'
      → is_zero (size_of (codes_listed all) w) ≡ false
      → at list w.view.selection ≡ ok current.code
      → q.begin w.conn ≡ answer opened
      → Open opened
      → Change d q w.settings.max_name_length current p true w.keys left opened committed
      → (scr : List Draw) × (handle_key g product_codes list b'm' w
          ≡ done tt (record w { keys = left; screen = scr; conn = q.finish (q.finish committed) }))
  unfolding finish
  modify_lem product_codes list current p left w opened committed x full l b o c =
      let (scr, r) =
        key_modify_writes list current p left names (codes_listed all) w opened committed small full
          l b (steady.lists opened o) c in
      let miss = no_scan w.settings.barcode_prefix x in
      (scr, rw (handle_key_chooses g product_codes list b'm' w, r, miss) refl)

  -- At a till with an empty basket, on the tab PRODUCTS, `m` and the answers about the selected product
  -- make a round that leaves a till with the second table.
  pub round_updates :
      (current : Listed D) (p : Product D) (i : ℕ) (keys left : List ℕ) (w : World C D)
      (t : AtTill all Idle [] w)
      → w.current_tab ≡ products
      → w.view.selection ≡ pos i
      → i ≤ t.most
      → get_elem? all i ≡ some current
      → SumFits {D = D} w.settings.max_name_length []
      → AllFit w.settings.max_name_length all'
      → w.keys ≡ b'm' ∷ keys
      → Changes d q Open Idle' w.settings.max_name_length current.product p keys left
      → (w' : World C D) × (round g w ≡ done false w')
        × (w'.keys ≡ left)
        × Keeps w w'
        × AtTill all' Idle' [] w'
  unfolding round
  round_updates current p i keys left w t tab sel room found fits names_fit k changes =
      let (n, rows, scr, c, shows, idle) = till_shows names all small steady [] w t fits in
      let shown = rows_of all w.current_tab n [] in
      let w₁ = record (loaded (codes_listed all) [] w) { screen = scr; conn = c; keys = keys } in
      let (opened, b, o) = steady.opens c idle in
      let full : is_zero (size_of (codes_listed all) w₁) ≡ false =
        rw tab (not_empty all i current found) in
      let at_selection : at (codes_listed shown) w₁.view.selection ≡ ok current.product.code =
        rw
          (
            selection_lem (max_products_nr w.terminal.lines w.current_tab)
                (size_of (codes_listed all) w) w.view,
            sel,
          )
          (selected_at all w.current_tab w.terminal.lines n t.most i current tab rows t.room room
            found) in
      let (committed, change, idle') = changes opened o in
      let (scr', r) =
        modify_lem (codes_listed all) (codes_listed shown) current.product p left w₁ opened
          committed t.prefix full at_selection b o change in
      let w' = record w₁ { keys = left; screen = scr'; conn = q.finish (q.finish committed) } in
      (
        w',
        rw (shows, getch_lem b'm' keys (record w₁ { keys = w.keys }) k, r) refl,
        refl,
        record { settings_kept = refl; device_kept = refl; printed_kept = refl },
        record {
          sells = t.sells;
          filled = t.filled;
          in_table = tt;
          at_top = top_lem names all small steady g w t.at_top;
          idle = steady'.finishes _ (steady'.finishes committed idle');
          prefix = t.prefix;
          most = t.most;
          room = t.room;
          column = t.column;
          names_fit = names_fit;
        },
      )
