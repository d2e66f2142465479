-- ===== src/Sale/Updated.antt =====
-- A product that is modified and then sold.
use mathlib.Core.Path.{subst}
use cli_pos.Base.{
  ℕ, ◌<◌, ◌≤◌, ◌^◌, ◌≡◌, ◌≢◌, ap, sym, ◌∙◌, true, false, List, [], ◌∷◌, some, length, get_elem?,
}
use cli_pos.Base.Int.{pos}
use cli_pos.Main.Keys.{Garbage}
use cli_pos.Main.Loop.{main_loop}
use cli_pos.Main.Round.{total_of}
use cli_pos.Product.{Product}
use cli_pos.Progress.While.{goes_on, main_loop_iff}
use cli_pos.Receipt.Copies.{copies_from, copies, receipt_text, enough}
use cli_pos.Receipt.Print.{receipt_device}
use cli_pos.Table.Listed.{Listed, codes_listed}
use cli_pos.Text.{Text}
use cli_pos.World.Double.{Double}
use cli_pos.World.Pqxx.{Pqxx}
use cli_pos.World.State.{World, products, done}
use cli_pos.Sale.Goods.{Scan, AllScans, add_items}
use cli_pos.Sale.Till.{IsSteady, AllFit}
use cli_pos.Sale.Rounds.{AtTill}
use cli_pos.Sale.Update.{Changes, round_updates}
use cli_pos.Sale.Run.{first_fits, scan_keys, SumsFit, main_loop_sells}

module _ {C D : Type 0} ⦃d : Double D⦄ ⦃q : Pqxx C D⦄ (names names' : List Text)
    (all all' : List (Listed D)) (small : length (codes_listed all) < 2 ^ 31)
    (small' : length (codes_listed all') < 2 ^ 31) {Idle Open Idle' Open' : C → Type 0}
    (steady : IsSteady d q names all Idle Open) (steady' : IsSteady d q names' all' Idle' Open')
    (g : Garbage) where
  -- A product is modified, and products are sold behind that: at a till with an empty basket, on the tab
  -- PRODUCTS, come `m`, the answers about the selected product, and then the keys of a sale: products of
  -- the second table, at least one, are scanned or searched by their names, then `T`, a key for its
  -- message, the answers to the questions for another copy, and `q`. The loop returns, with exactly
  -- these keys taken and an empty basket, and has written to the printer, as often as the answers ask
  -- for, the receipt of what was entered, with the products as they are in the second table, and with
  -- their sum. It does so where the numbers on the form can be read and the server writes the product
  -- that the answers make, which turns the first table into the second; neither changes in another way,
  -- and each has fewer than 2^31 products. The selected entry is a product of the first table, at a
  -- place for which the screen has room; the scanner types printable keys, and the names of the second
  -- table ascend and have printable keys alone where they are searched; the uninitialised flag of
  -- add_product_to_basket happens to be false, the device opens, the sum fits its line from the start to
  -- the last product, and the till is in order: the window at the top of the list, the connection idle,
  -- the prefix `#`, the screen has room for a row, and the names of both tables fit the column, which is
  -- of less than 2^31.
  pub main_loop_updates :
      (current : Listed D) (p : Product D) (i : ℕ) (keys : List ℕ) (scans : List (Scan D)) (key : ℕ)
      (answers rest : List ℕ) (copied : ℕ) (w : World C D) (t : AtTill all Idle [] w)
      → let m = w.settings.max_name_length in
        let items = add_items scans [] in
        g.flag ≡ false
        → w.current_tab ≡ products
        → w.view.selection ≡ pos i
        → i ≤ t.most
        → get_elem? all i ≡ some current
        → AllFit m all'
        → w.keys ≡ b'm' ∷ keys
        → Changes d q Open Idle' m current.product p keys (scan_keys scans (b'T' ∷ key ∷ answers))
        → AllScans names' all' scans
        → scans ≢ []
        → SumsFit m scans []
        → w.device receipt_device ≡ true
        → copies_from 0 answers ≡ enough copied (b'q' ∷ rest)
        → (w' : World C D) × (main_loop g w ≡ done tt w')
          × (w'.keys ≡ rest)
          × (w'.basket ≡ [])
          × (w'.printed
              ≡ copies copied
                  (receipt_text w.settings items (total_of (d.of_int (pos 0)) items))
                  w.printed)
  main_loop_updates current p i keys scans key answers rest copied w t flag tab sel room found
        names_fit k changes a some_scans fits opens c =
      let items = add_items scans [] in
      let (w₁, r, k₁, kept, t₁) =
        round_updates names names' all all' small small' steady steady' g current p i keys
          (scan_keys scans (b'T' ∷ key ∷ answers)) w t tab sel room found
          (first_fits w.settings.max_name_length scans [] fits) names_fit k changes in
      let m = ap (λ s. s.max_name_length) kept.settings_kept in
      let (w₂, e, k₂, b₂, printed) =
        main_loop_sells names' all' small' steady' g flag scans key answers rest copied w₁ a
          some_scans t₁ (subst (λ m. SumsFit {D = D} m scans []) (sym m) fits)
          (ap (λ f. f receipt_device) kept.device_kept ∙ opens) k₁ c in
      let sold = (main_loop_iff g w₁ (done tt w₂)).0 e in
      (
        w₂,
        (main_loop_iff g w (done tt w₂)).1 (goes_on r sold),
        k₂,
        b₂,
        printed
            ∙ ap
                (λ s.
                  copies copied (receipt_text s items (total_of (d.of_int (pos 0)) items))
                    w₁.printed)
                kept.settings_kept
            ∙ ap (copies copied (receipt_text w.settings items (total_of (d.of_int (pos 0)) items)))
                kept.printed_kept,
      )
