-- ===== src/Main/Found.antt =====
-- A product that is searched by its name and put into the basket: the key `/` of the loop of src/main.cpp.
use cli_pos.Shown.Info
use cli_pos.Base.{ℕ, ◌^◌, ◌<◌, ◌≤◌, ◌≡◌, true, List, [], ◌∷◌, ◌++◌, some, arith, length, get_elem?}
use cli_pos.Base.Int.{ℤ, pos}
use cli_pos.Database.Query.{finish}
use cli_pos.Database.Reads.{Serves}
use cli_pos.Database.Row.{RowTexts, Stocks}
use cli_pos.Database.Transaction.{begin_lem}
use cli_pos.Fault.{answer}
use cli_pos.Input.Bound.{AllTyped}
use cli_pos.Product.{Product}
use cli_pos.Search.Find.{IsAscending}
use cli_pos.Table.Listed.{Listed, IsDrawable, draw_product_list-Draws}
use cli_pos.Table.Messages.{clear_messages-IsDrawing}
use cli_pos.Text.{Text}
use cli_pos.Window.Slice.{at_lem}
use cli_pos.Words.{to_size}
use cli_pos.World.Double.{Double}
use cli_pos.World.Monad.{key_enter, getch}
use cli_pos.World.Pqxx.{Pqxx}
use cli_pos.World.State.{World, Draw, basket, products, done, printed, cleared}
use cli_pos.Main.Enter.{past_end, put_in_basket_lem}
use cli_pos.Main.Keys.{Garbage, found_key, show_found, key_search, reset_past_basket}
use cli_pos.Main.Lookup.{find_product_finds}
use cli_pos.Main.Scan.{with_one}
use cli_pos.Main.Typed.{read_lem}
use cli_pos.Main.Show.{columns_of}

module _ {C D : Type 0} ⦃d : Double D⦄ ⦃q : Pqxx C D⦄ (g : Garbage) (p : Product D)
    (t : RowTexts) where
  -- The world that a product leaves that is put into the basket.
  abbrev pub with_product : World C D → World C D
  with_product w = record w {
    basket = with_one g p t w;
    current_tab = basket;
    view = past_end (with_one g p t w) w.view;
  }

  found_lem :
      (codes : List ℤ) (i : ℕ) (w : World C D)
      → get_elem? codes i ≡ some p.code
      → Stocks d q p t w.conn
      → found_key g codes i key_enter w ≡ done tt (with_product w)
  unfolding found_key reset_past_basket
  found_lem codes i w e s = rw (at_lem codes i p.code e, put_in_basket_lem g p t w s)

  show_found_lem :
      (names : List Text) (codes : List ℤ) (i : ℕ) (rest : List ℕ) (w : World C D)
      → Serves q names codes w.conn
      → length codes < 2 ^ 31
      → IsAscending names
      → get_elem? names i ≡ some p.name
      → get_elem? codes i ≡ some p.code
      → Stocks d q p t w.conn
      → length p.name ≤ to_size w.settings.max_name_length
      → to_size w.settings.max_name_length < 2 ^ 31
      → (scr : List Draw) × (show_found g codes p.name (record w { keys = key_enter ∷ rest })
          ≡ done key_enter (with_product (record w { keys = rest; screen = scr })))
  unfolding show_found getch
  show_found_lem names codes i rest w s small a n c r fits column =
      let w₀ = record w { keys = key_enter ∷ rest } in
      let w₁ = record w₀ { screen = cleared ∷ w.screen } in
      let found = find_product_finds g names codes w₀ i p.name p.code s small (omega arith) a n c in
      let x : Listed D = record { product = p; texts = t } in
      let row : IsDrawable w.conn w.basket w.settings.max_name_length (columns_of products) x =
        record { stocked = r; name_fits = fits; quantity = d.of_int (pos 0); known = λ e. cc } in
      let (scr, drawn) =
        draw_product_list-Draws (x ∷ []) (pos 0) (columns_of products) (d.of_int (pos 0)) w₁ column
          (row, tt) (λ e. cc) in
      let w₂ = record w { keys = rest; screen = scr } in
      (scr, rw (found, drawn, found_lem codes i w₂ c r))

  -- On a table of fewer than 2^31 products, which the server lists by ascending names, `/`, the name of a
  -- product that it sends, typed with printable keys, Enter, and Enter once more where the product is
  -- shown, make of the basket what add_product_to_basket makes of it with one of that product, and show
  -- it, from the top if the place of the selection is past its end, whatever `mid` held at first. The
  -- key that goes on is Enter; nothing else changes but the keys that are taken, the screen and the
  -- connection, whose transaction ends without a commit. It does so where the server begins the
  -- transaction, and the name fits the column, which is of less than 2^31.
  pub key_search_adds :
      (names : List Text) (codes : List ℤ) (i : ℕ) (rest : List ℕ) (slash : ℕ) (w : World C D)
      (opened : C)
      → AllTyped p.name
      → length p.name ≤ to_size w.settings.max_name_length
      → to_size w.settings.max_name_length < 2 ^ 31
      → w.keys ≡ p.name ++ (key_enter ∷ key_enter ∷ rest)
      → q.begin w.conn ≡ answer opened
      → Serves q names codes opened
      → length codes < 2 ^ 31
      → IsAscending names
      → get_elem? names i ≡ some p.name
      → get_elem? codes i ≡ some p.code
      → Stocks d q p t opened
      → (scr : List Draw) × (key_search g codes slash w
          ≡ done key_enter
              (with_product (record w { keys = rest; screen = scr; conn = q.finish opened })))
  unfolding key_search finish
  key_search_adds names codes i rest slash w opened a fits column k b s small asc n c r =
      let w₁ = record w { conn = opened } in
      let (scr₁, empty) = clear_messages-IsDrawing.drawn w₁ in
      let w₂ = record w₁ { screen = printed Info.search_label ∷ scr₁ } in
      let (scr₂, typed) = read_lem true p.name (key_enter ∷ rest) w₂ a (omega arith) k in
      let w₃ = record w₂ { keys = key_enter ∷ rest; screen = scr₂ } in
      let (scr₃, e) = show_found_lem names codes i rest w₃ s small asc n c r fits column in
      (scr₃, rw (begin_lem w opened b, empty, typed, e))
