-- ===== src/Sale/Goods.antt =====
-- The products that are entered in a sale, and the basket that they make.
use mathlib.Core.List.{Memᴰ}
use mathlib.Core.List.Memᴰ
use mathlib.Core.Path.{subst}
use cli_pos.Base.{
  ℕ, zero, suc, ◌<◌, ◌^◌, ◌≡◌, refl, ap, sym, true, false, List, [], ◌∷◌, ◌++◌, some, length,
  get_elem?, take, if◌then◌else◌, Bool-cases, inl, inr,
}
use cli_pos.Base.Int.{pos, eq_ℤ, eq_ℤ_iff}
use cli_pos.Basket.{entry, add_from, add_product_to_basket}
use cli_pos.Basket.Quantity.{quantity_of}
use cli_pos.Basket.Abstract.{add_past}
use cli_pos.Fault.{ok}
use cli_pos.Input.{remove_non_nr}
use cli_pos.Input.Bound.{AllTyped}
use cli_pos.Main.Show.{codes_of}
use cli_pos.Receipt.Copies.{Item, cart_of}
use cli_pos.Table.Listed.{Listed, codes_listed}
use cli_pos.Search.Find.{IsAscending}
use cli_pos.Text.{Text, stol}
use cli_pos.World.Monad.{key_enter}
use cli_pos.World.Double.{Double}
use cli_pos.World.State.{BasketProduct}

-- A product is entered by the scanner, which types its code, or by a search for its name, which stands
-- at a place of the list.
pub data Entry : Type 0 where
  by_scanner : List ℕ → Entry
  by_name : ℕ → Entry

-- A product of the table, and how it is entered.
pub record Scan (D : Type 0) : Type 0 where
  pub listed : Listed D
  pub entry : Entry

-- The keys that enter a product.
abbrev pub entry_keys : {D : Type 0} → Listed D → Entry → List ℕ → List ℕ
entry_keys x (by_scanner ks) rest = b'#' ∷ (ks ++ (key_enter ∷ rest))
entry_keys x (by_name i) rest = b'/' ∷ (x.product.name ++ (key_enter ∷ key_enter ∷ rest))

-- The scanner types the code with printable keys; or the name has printable keys alone, the names ascend,
-- and the name and the code stand at the place.
abbrev pub IsEntered : {D : Type 0} → List Text → List (Listed D) → Listed D → Entry → Type 0
IsEntered names all x (by_scanner ks) =
    AllTyped ks × (length ks < 2 ^ 64) × (stol (remove_non_nr ks) ≡ ok x.product.code)
IsEntered names all x (by_name i) =
    AllTyped x.product.name
    × IsAscending names
    × (get_elem? names i ≡ some x.product.name)
    × (get_elem? (codes_listed all) i ≡ some x.product.code)

-- A product of the table is entered.
pub record IsScan {D : Type 0} (names : List Text) (all : List (Listed D)) (s : Scan D)
    : Type 0 where
  pub in_table : Memᴰ s.listed all
  pub entered : IsEntered names all s.listed s.entry

module _ {D : Type 0} where
  abbrev pub AllScans : List Text → List (Listed D) → List (Scan D) → Type 0
  AllScans names all [] = Unit {0}
  AllScans names all (s ∷ scans) = IsScan names all s × AllScans names all scans

  -- The products of the entries of a basket are products of the table.
  abbrev pub AllInTable : List (Listed D) → List (Item D) → Type 0
  AllInTable all [] = Unit {0}
  AllInTable all (i ∷ items) =
      Memᴰ (record { product = i.product; texts = i.texts }) all × AllInTable all items

  -- The products of the entries, to be listed.
  abbrev pub listed_of : List (Item D) → List (Listed D)
  listed_of [] = []
  listed_of (i ∷ items) = record { product = i.product; texts = i.texts } ∷ listed_of items

  pub listed_of_lem :
      (items : List (Item D)) → codes_listed (listed_of items) ≡ codes_of (cart_of items)
  listed_of_lem [] = refl
  listed_of_lem (i ∷ items) = ap (◌∷◌ i.product.code) (listed_of_lem items)

  pub length-cart_of :
      (items : List (Item D)) → length (cart_of items) ≡ length (codes_of (cart_of items))
  length-cart_of [] = refl
  length-cart_of (i ∷ items) = ap suc (length-cart_of items)

  pub codes_listed-take :
      (n : ℕ) (xs : List (Listed D)) → codes_listed (take n xs) ≡ take n (codes_listed xs)
  codes_listed-take zero xs = refl
  codes_listed-take (suc n) [] = refl
  codes_listed-take (suc n) (x ∷ xs) = ap (◌∷◌ x.product.code) (codes_listed-take n xs)

  -- The quantity of a code is in the basket.
  abbrev pub IsHeld : List (BasketProduct D) → Listed D → Type 0
  IsHeld cart x = (quantity : D) × (quantity_of x.product.code cart ≡ some quantity)

  IsHeld-cons :
      (b : BasketProduct D) (cart : List (BasketProduct D)) (x : Listed D)
      → IsHeld cart x
      → IsHeld (b ∷ cart) x
  unfolding quantity_of
  IsHeld-cons b cart x (quantity, e) = elim (Bool-cases (eq_ℤ b.code x.product.code)) [
    | inl same ↦ (b.quantity, rw same refl)
    | inr other ↦ (quantity, rw other e)
  ]

  -- Every product of a basket is held in it.
  pub Memᴰ-IsHeld :
      (items : List (Item D)) (x : Listed D) → Memᴰ x (listed_of items) → IsHeld (cart_of items) x
  unfolding quantity_of
  Memᴰ-IsHeld [] x m = absurd (Memᴰ.not-nil m)
  Memᴰ-IsHeld (i ∷ items) x (Memᴰ.head e) =
      let same : eq_ℤ i.product.code x.product.code ≡ true =
        (eq_ℤ_iff i.product.code x.product.code).1 (ap (λ y. y.product.code) (sym e)) in
      (i.quantity, rw same refl)
  Memᴰ-IsHeld (i ∷ items) x (Memᴰ.tail m) =
      IsHeld-cons (entry i.product.code i.quantity) (cart_of items) x (Memᴰ-IsHeld items x m)

  pub Memᴰ-listed_of :
      (all : List (Listed D)) (items : List (Item D)) (x : Listed D)
      → AllInTable all items
      → Memᴰ x (listed_of items)
      → Memᴰ x all
  Memᴰ-listed_of all [] x h m = absurd (Memᴰ.not-nil m)
  Memᴰ-listed_of all (i ∷ items) x h (Memᴰ.head e) = subst (λ y. Memᴰ y all) (sym e) h.0
  Memᴰ-listed_of all (i ∷ items) x h (Memᴰ.tail m) = Memᴰ-listed_of all items x h.1 m

module _ {D : Type 0} ⦃d : Double D⦄ where
  -- One more of a product, in the first entry with its code or in a new one.
  abbrev pub add_item : Listed D → List (Item D) → List (Item D)
  add_item x [] = record { product = x.product; texts = x.texts; quantity = d.of_int (pos 1) } ∷ []
  add_item x (i ∷ items) =
      if eq_ℤ i.product.code x.product.code
      then record i { quantity = d.add i.quantity (d.of_int (pos 1)) } ∷ items
      else i ∷ add_item x items

  abbrev pub add_items : List (Scan D) → List (Item D) → List (Item D)
  add_items [] items = items
  add_items (s ∷ scans) items = add_items scans (add_item s.listed items)

  pub add_item-InTable :
      (all : List (Listed D)) (x : Listed D) (items : List (Item D))
      → Memᴰ x all
      → AllInTable all items
      → AllInTable all (add_item x items)
  add_item-InTable all x [] m h = (m, tt)
  add_item-InTable all x (i ∷ items) m (h, hs) =
      elim (Bool-cases (eq_ℤ i.product.code x.product.code)) [
        | inl same ↦ rw same (h, hs)
        | inr other ↦ rw other (h, add_item-InTable all x items m hs)
      ]

  -- It is what add_product_to_basket does with its flag false.
  pub add_item_lem :
      (x : Listed D) (items : List (Item D))
      → add_product_to_basket false x.product (d.of_int (pos 1)) (cart_of items)
        ≡ cart_of (add_item x items)
  unfolding add_product_to_basket add_from
  add_item_lem x [] = refl
  add_item_lem x (i ∷ items) = elim (Bool-cases (eq_ℤ i.product.code x.product.code)) [
    | inl same ↦ rw (same, add_from, add_product_to_basket) refl
    | inr other ↦
        let b = entry i.product.code i.quantity in
        rw (other, add_past x.product (d.of_int (pos 1)) b (cart_of items) other)
          (ap (◌∷◌ b) (add_item_lem x items))
  ]
