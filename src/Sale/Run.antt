-- ===== src/Sale/Run.antt =====
-- A whole sale.
use mathlib.Core.Path.{subst}
use cli_pos.Base.{
  ℕ, ◌<◌, ◌^◌, ◌≡◌, ◌≢◌, refl, ap, sym, ◌∙◌, true, false, List, [], ◌∷◌, length, ◌==◌, Bool-cases,
  inl, inr, arith,
}
use cli_pos.Base.Int.{ℤ, pos, eq_ℤ}
use cli_pos.Main.Keys.{Garbage}
use cli_pos.Main.Loop.{main_loop}
use cli_pos.Main.Quit.{quit_keys}
use cli_pos.Main.Round.{total_of}
use cli_pos.Progress.While.{While, quits, goes_on, main_loop_iff}
use cli_pos.Receipt.Copies.{Item, cart_of, copies_from, copies, receipt_text, enough}
use cli_pos.Receipt.Print.{receipt_device}
use cli_pos.Table.Listed.{Listed, codes_listed}
use cli_pos.Text.{Text}
use cli_pos.World.Double.{Double}
use cli_pos.World.Pqxx.{Pqxx}
use cli_pos.World.State.{World, Outcome, done}
use cli_pos.Sale.Goods.{Scan, AllScans, entry_keys, add_item, add_items}
use cli_pos.Sale.Till.{IsSteady}
use cli_pos.Sale.Rounds.{AtTill, SumFits, Keeps, round_leaves}
use cli_pos.Sale.Entered.{round_enters}
use cli_pos.Sale.Checkout.{round_checks_out}

-- The keys that enter the products, one behind the other.
abbrev pub scan_keys : {D : Type 0} → List (Scan D) → List ℕ → List ℕ
scan_keys [] rest = rest
scan_keys (s ∷ scans) rest = entry_keys s.listed s.entry (scan_keys scans rest)

-- The sum fits its line all the way.
abbrev pub SumsFit : {D : Type 0} → ⦃d : Double D⦄ → ℤ → List (Scan D) → List (Item D) → Type 0
SumsFit m [] items = SumFits m items
SumsFit m (s ∷ scans) items = SumFits m items × SumsFit m scans (add_item s.listed items)

module _ {D : Type 0} ⦃d : Double D⦄ where
  pub first_fits :
      (m : ℤ) (scans : List (Scan D)) (items : List (Item D))
      → SumsFit m scans items
      → SumFits m items
  first_fits m [] items h = h
  first_fits m (s ∷ scans) items h = h.0

  abbrev IsFull : List (Item D) → Type 0
  IsFull items = (length (cart_of items) == 0) ≡ false

  add_item-IsFull : (x : Listed D) (items : List (Item D)) → IsFull (add_item x items)
  add_item-IsFull x [] = refl
  add_item-IsFull x (i ∷ items) = elim (Bool-cases (eq_ℤ i.product.code x.product.code)) [
    | inl same ↦ rw same (ground arith)
    | inr other ↦ rw other (ground arith)
  ]

  add_items-IsFull :
      (scans : List (Scan D)) (items : List (Item D))
      → IsFull items
      → IsFull (add_items scans items)
  add_items-IsFull [] items h = h
  add_items-IsFull (s ∷ scans) items h =
      add_items-IsFull scans (add_item s.listed items) (add_item-IsFull s.listed items)

  scanned-IsFull : (scans : List (Scan D)) → scans ≢ [] → IsFull (add_items scans [])
  scanned-IsFull [] h = absurd (h refl)
  scanned-IsFull (s ∷ scans) h =
      add_items-IsFull scans (add_item s.listed []) (add_item-IsFull s.listed [])

module _ {C D : Type 0} where
  Keeps-trans : (w w' w'' : World C D) → Keeps w w' → Keeps w' w'' → Keeps w w''
  Keeps-trans w w' w'' h k = record {
    settings_kept = k.settings_kept ∙ h.settings_kept;
    device_kept = k.device_kept ∙ h.device_kept;
    printed_kept = k.printed_kept ∙ h.printed_kept;
  }

module _ {C D : Type 0} ⦃d : Double D⦄ ⦃q : Pqxx C D⦄ (names : List Text) (all : List (Listed D))
    (small : length (codes_listed all) < 2 ^ 31) {Idle Open : C → Type 0}
    (steady : IsSteady d q names all Idle Open) (g : Garbage) (flag : g.flag ≡ false) where
  -- After the rounds that scan the products the loop goes on as from a till with all of them.
  scans_lem :
      (scans : List (Scan D)) (rest : List ℕ) (items : List (Item D)) (w : World C D)
      → AllScans names all scans
      → AtTill all Idle items w
      → SumsFit w.settings.max_name_length scans items
      → w.keys ≡ scan_keys scans rest
      → (w' : World C D) × ((o : Outcome C D (Unit {0})) → While g w' o → While g w o)
        × (w'.keys ≡ rest)
        × Keeps w w'
        × AtTill all Idle (add_items scans items) w'
        × SumFits w'.settings.max_name_length (add_items scans items)
  scans_lem [] rest items w a t fits k = (
    w,
    λ o r. r,
    k,
    record { settings_kept = refl; device_kept = refl; printed_kept = refl },
    t,
    fits,
  )
  scans_lem (s ∷ scans) rest items w (a, others) t (fit, fits) k =
      let (w₁, r, k₁, kept₁, t₁) =
        round_enters names all small steady g s (scan_keys scans rest) items w flag a t fit k in
      let m = ap (λ s. s.max_name_length) kept₁.settings_kept in
      let fits₁ = subst (λ m. SumsFit m scans (add_item s.listed items)) (sym m) fits in
      let (w₂, go, k₂, kept₂, t₂, fits₂) =
        scans_lem scans rest (add_item s.listed items) w₁ others t₁ fits₁ k₁ in
      (w₂, λ o run. goes_on r (go o run), k₂, Keeps-trans w w₁ w₂ kept₁ kept₂, t₂, fits₂)

  -- A whole sale: at a till with an empty basket products of the table are entered, at least one, each
  -- by the scanner, which types its code, or by a search for its name and Enter where it is shown; then
  -- come `T`, a key for its message, the answers to the questions for another copy, and `q`. The loop
  -- returns, with exactly these keys taken and an empty basket, and has written to the printer, as often
  -- as the answers ask for, the receipt of one entry for each code that was entered, in the order of the
  -- first times, with as many of the product as it was entered, counted up from 1 by the additions of
  -- `double`, and with the sum of the prices after discount times the quantities. It does so where the
  -- scanner types printable keys, the names ascend and have printable keys alone where they are searched,
  -- the uninitialised flag of add_product_to_basket happens to be false, the device opens, the table has
  -- fewer than 2^31 products and a sale does not change what the server answers, the sum fits its line
  -- from the start to the last product, and the till is in order: the tab is PRODUCTS or BASKET, the
  -- window at the top of the list, the connection idle, the prefix `#`, the screen has room for a row,
  -- and the names of the table fit the column, which is of less than 2^31.
  pub main_loop_sells :
      (scans : List (Scan D)) (key : ℕ) (answers rest : List ℕ) (n : ℕ) (w : World C D)
      → let m = w.settings.max_name_length in
        let items = add_items scans [] in
        AllScans names all scans
        → scans ≢ []
        → AtTill all Idle [] w
        → SumsFit m scans []
        → w.device receipt_device ≡ true
        → w.keys ≡ scan_keys scans (b'T' ∷ key ∷ answers)
        → copies_from 0 answers ≡ enough n (b'q' ∷ rest)
        → (w' : World C D) × (main_loop g w ≡ done tt w')
          × (w'.keys ≡ rest)
          × (w'.basket ≡ [])
          × (w'.printed
              ≡ copies n
                  (receipt_text w.settings items (total_of (d.of_int (pos 0)) items))
                  w.printed)
  main_loop_sells scans key answers rest n w a some_scans t fits opens k c =
      let items = add_items scans [] in
      let (w₁, go, k₁, kept, t₁, fits₁) = scans_lem scans (b'T' ∷ key ∷ answers) [] w a t fits k in
      let full = ap (λ b. length b == 0) t₁.filled ∙ scanned-IsFull scans some_scans in
      let (w₂, r, k₂, set₂, p₂, t₂) =
        round_checks_out names all small steady g items w₁ key answers (b'q' ∷ rest) n t₁ fits₁ full
          (ap (λ f. f receipt_device) kept.device_kept ∙ opens) k₁ c in
      let same = set₂ ∙ kept.settings_kept in
      let fits₂ =
        subst (λ s. SumFits {D = D} s.max_name_length []) (sym same)
          (first_fits w.settings.max_name_length scans [] fits) in
      let q₂ : w₂.keys ≡ quit_keys (length w₂.basket) rest =
        k₂ ∙ ap (λ b. quit_keys (length b) rest) (sym t₂.filled) in
      let (w₃, e, k₃, b₃, total, p₃) =
        round_leaves names all small steady g [] w₂ rest t₂ fits₂ q₂ in
      let printed =
        p₃
        ∙ p₂
        ∙ ap (λ s. copies n (receipt_text s items (total_of (d.of_int (pos 0)) items)) w₁.printed)
            kept.settings_kept
        ∙ ap (copies n (receipt_text w.settings items (total_of (d.of_int (pos 0)) items)))
            kept.printed_kept in
      (
        w₃,
        (main_loop_iff g w (done tt w₃)).1 (go (done tt w₃) (goes_on r (quits e))),
        k₃,
        b₃ ∙ t₂.filled,
        printed,
      )
