-- ===== src/Main/Round.antt =====
-- What a round of the loop of src/main.cpp does before it reads a key.
use cli_pos.Base.{
  ℕ, suc, ◌+◌, ◌^◌, ◌<◌, ◌≡◌, refl, ap, ◌∙◌, true, false, List, [], ◌∷◌, arith, length,
  if◌then◌else◌, Bool-cases, inl, inr,
}
use cli_pos.Base.Int.{ℤ, pos, ◌+ℤ◌, ltb_ℤ}
use cli_pos.Database.Reads.{Serves, lists-Serves}
use cli_pos.Database.Row.{product-Stocks, Stocks}
use cli_pos.Database.Transaction.{begin_lem, commit_lem}
use cli_pos.Fault.{answer, ok}
use cli_pos.Receipt.Copies.{Item, cart_of, AllStocked}
use cli_pos.Table.Head.{table_width}
use cli_pos.Table.Draws.{TotalFits}
use cli_pos.Table.Listed.{Listed, codes_listed, AllDrawable, draw_product_list-Draws}
use cli_pos.Text.{Text}
use cli_pos.Window.{geb_ℤ, max_products_nr, set_stop, slice}
use cli_pos.Words.{to_size}
use cli_pos.World.Double.{Double}
use cli_pos.World.Pqxx.{Pqxx}
use cli_pos.World.State.{World, View, Tab, products, basket, stock, Draw, done, cleared}
use cli_pos.Main.Show.{
  columns_of, codes_of, visible_on, set_most, calculate_visible_product_list, load_from, total_from,
  show,
}
use cli_pos.Main.Cursor.{size_of, size_lem}

-- The window on a list of that size, on a screen with room for `most` entries.
abbrev pub fitted : ℤ → ℤ → View → View
fitted most size v = if geb_ℤ most size then record v { stop = size } else set_stop most size v

-- The sum of price after discount times quantity.
abbrev pub total_of : {D : Type 0} → ⦃d : Double D⦄ → D → List (Item D) → D
total_of total [] = total
total_of ⦃d⦄ total (i ∷ items) =
    total_of (d.add total (d.mul i.product.price_after_discount i.quantity)) items

-- The list of a tab.
abbrev pub listed_on : Tab → List ℤ → List ℤ → List ℤ
listed_on products in_table in_basket = in_table
listed_on basket in_table in_basket = in_basket
listed_on stock in_table in_basket = in_table

-- The window of a round.
abbrev pub view_of : {C D : Type 0} → List ℤ → World C D → View
view_of codes w = fitted (max_products_nr w.terminal.lines w.current_tab) (size_of codes w) w.view

module _ {C D : Type 0} ⦃q : Pqxx C D⦄ (names : List Text) (codes : List ℤ)
    (small : length codes < 2 ^ 31) where
  set_most_lem :
      (most : ℤ) (w : World C D)
      → Serves q names codes w.conn
      → set_most most w ≡ done tt (record w { view = fitted most (size_of codes w) w.view })
  unfolding set_most
  set_most_lem most w s = elim (Bool-cases (geb_ℤ most (size_of codes w))) [
    | inl room ↦ rw (size_lem names codes small w s, room, size_lem names codes small w s)
    | inr full ↦ rw (size_lem names codes small w s, full)
  ]

  visible_lem :
      (tab : Tab) (v : View) (list : List ℤ) (w : World C D)
      → slice (listed_on tab codes (codes_of w.basket)) v ≡ ok list
      → visible_on tab codes v w ≡ done list w
  unfolding visible_on
  visible_lem products v list w e = rw e
  visible_lem basket v list w e = rw e
  visible_lem stock v list w e = rw e

  calculate_lem :
      (list : List ℤ) (w : World C D)
      → Serves q names codes w.conn
      → slice (listed_on w.current_tab codes (codes_of w.basket)) (view_of codes w) ≡ ok list
      → calculate_visible_product_list w ≡ done list (record w { view = view_of codes w })
  unfolding calculate_visible_product_list
  calculate_lem list w s e =
      let w₁ = record w { view = view_of codes w } in
      rw (
        set_most_lem (max_products_nr w.terminal.lines w.current_tab) w s,
        (lists-Serves names codes w₁ s small).1,
        visible_lem w.current_tab (view_of codes w) list w₁ e,
      )

-- The server sends a row for each product of the list.
abbrev pub AllServed : {C D : Type 0} → Double D → Pqxx C D → List (Listed D) → C → Type 0
AllServed d q [] c = Unit {0}
AllServed d q (x ∷ xs) c = Stocks d q x.product x.texts c × AllServed d q xs c

length-codes_listed : {D : Type 0} (xs : List (Listed D)) → length xs ≡ length (codes_listed xs)
length-codes_listed [] = refl
length-codes_listed (x ∷ xs) = ap suc (length-codes_listed xs)

module _ {C D : Type 0} ⦃d : Double D⦄ ⦃q : Pqxx C D⦄ where
  load_lem :
      (names : List Text) (codes : List ℤ) (i : ℕ) (xs : List (Listed D)) (w : World C D)
      → length codes < 2 ^ 31
      → Serves q names codes w.conn
      → i + length xs ≡ length codes
      → AllServed d q xs w.conn
      → load_from i (codes_listed xs) w ≡ done tt w
  unfolding load_from
  load_lem names codes i [] w small s e h =
      let last : ltb_ℤ (pos i) (pos (length codes)) ≡ false = ground arith in
      rw ((lists-Serves names codes w s small).0, last)
  load_lem names codes i (x ∷ xs) w small s e (r, h) =
      let more : ltb_ℤ (pos i) (pos (length codes)) ≡ true = ground arith in
      rw (
        (lists-Serves names codes w s small).0,
        more,
        (product-Stocks x.product x.texts w r).1,
        load_lem names codes (suc i) xs w small s (omega arith) h,
      )

  total_lem :
      (total : D) (items : List (Item D)) (w : World C D)
      → AllStocked d q items w.conn
      → total_from total (cart_of items) w ≡ done (total_of total items) w
  unfolding total_from
  total_lem total [] w h = refl
  total_lem total (i ∷ items) w (r, h) =
      let total' = d.add total (d.mul i.product.price_after_discount i.quantity) in
      rw ((product-Stocks i.product i.texts w r).1, total_lem total' items w h)

  -- The world that a round draws, with the total of the basket.
  abbrev pub loaded : List ℤ → List (Item D) → World C D → World C D
  loaded codes items w =
      let v = view_of codes w in
      record w {
        view = record v { indexed_selection = v.start +ℤ v.selection };
        total = total_of (d.of_int (pos 0)) items;
      }

  -- On a table of fewer than 2^31 products that the server lists and sends, with products of the table in
  -- the basket, show returns the codes of the table and, of the tab's list, the entries that are in the
  -- window when its end is set for the screen. It sets the total to the sum of the prices after discount
  -- times the quantities, and the place of the selection in the list; it changes nothing else but the
  -- window's end, the screen, and the connection, whose transaction is committed. It does so where the
  -- entries in the window are in range, each of them is a product that the server sends, with a name that
  -- fits the column, which is of less than 2^31, each quantity that is to be shown is in the basket, a
  -- total that is to be shown fits its line, and the server begins and commits the transaction.
  pub show_shows :
      (names : List Text) (all shown : List (Listed D)) (items : List (Item D)) (w : World C D)
      (opened committed : C)
      → let codes = codes_listed all in
        let columns = columns_of w.current_tab in
        let m = w.settings.max_name_length in
        let total = total_of (d.of_int (pos 0)) items in
        q.begin w.conn ≡ answer opened
        → Serves q names codes opened
        → length codes < 2 ^ 31
        → AllServed d q all opened
        → w.basket ≡ cart_of items
        → AllStocked d q items opened
        → slice (listed_on w.current_tab codes (codes_of w.basket)) (view_of codes w)
          ≡ ok (codes_listed shown)
        → to_size m < 2 ^ 31
        → AllDrawable opened w.basket m columns shown
        → (columns.total ≡ true → TotalFits (table_width m columns) total)
        → q.commit opened ≡ answer committed
        → (scr : List Draw) × (show w
            ≡ done
                (codes, codes_listed shown)
                (record (loaded codes items w) { screen = scr; conn = committed }))
  unfolding show
  show_shows names all shown items w opened committed b s small h e st sl l dr t c =
      let codes = codes_listed all in
      let total = total_of (d.of_int (pos 0)) items in
      let w₁ = record w { screen = cleared ∷ w.screen } in
      let w₂ = record w₁ { conn = opened } in
      let w₃ = record w₂ { view = view_of codes w } in
      let w₄ = record w₂ { view = (loaded codes items w).view } in
      let w₅ = record w₄ { total = total } in
      let (scr, drawn) =
        draw_product_list-Draws shown w₅.view.selection (columns_of w.current_tab) total w₅ l dr
          t in
      let w₆ = record w₅ { screen = scr } in
      let sum : total_from (d.of_int (pos 0)) w.basket w₄ ≡ done total w₄ =
        ap (λ cart. total_from (d.of_int (pos 0)) cart w₄) e
        ∙ total_lem (d.of_int (pos 0)) items w₄ st in
      (
        scr,
        rw (
          begin_lem w₁ opened b,
          (lists-Serves names codes w₂ s small).1,
          calculate_lem names codes small (codes_listed shown) w₂ s sl,
          load_lem names codes 0 all w₄ small s (omega (arith, length-codes_listed all)) h,
          sum,
          drawn,
          commit_lem w₆ committed c,
        ),
      )
