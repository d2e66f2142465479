-- ===== src/Sale/Till.antt =====
-- What is shown at the till during a sale: the window on the tabs PRODUCTS and BASKET.
use mathlib.Core.List.{Memᴰ}
use mathlib.Core.List.Memᴰ
use mathlib.Core.Path.{subst}
use cli_pos.Base.{
  ℕ, zero, suc, ◌≤◌, ◌≡◌, refl, ap, sym, ◌∙◌, true, List, [], ◌∷◌, length, take, arith, Bool-cases,
  inl, inr, dec_lt,
}
use cli_pos.Base.Int.{ℤ, pos, ◌-ℤ◌}
use cli_pos.Database.Reads.{Serves}
use cli_pos.Database.Row.{Stocks}
use cli_pos.Fault.{answer, ok}
use cli_pos.Main.Round.{listed_on, fitted, AllServed}
use cli_pos.Main.Scan.{Sells}
use cli_pos.Main.Show.{columns_of, codes_of}
use cli_pos.Receipt.Copies.{Item, cart_of, AllStocked}
use cli_pos.Table.Draws.{TotalFits}
use cli_pos.Table.Head.{Columns, table_width}
use cli_pos.Table.Listed.{Listed, codes_listed, IsDrawable, AllDrawable}
use cli_pos.Text.{Text}
use cli_pos.Main.Cursor.{entries}
use cli_pos.Window.{one, geb_ℤ, half, slice, max_products_nr, set_stop}
use cli_pos.Window.Slice.{slice-visible}
use cli_pos.Words.{to_size}
use cli_pos.World.Double.{Double}
use cli_pos.World.Pqxx.{Pqxx}
use cli_pos.World.State.{View, Tab, products, basket, stock, BasketProduct, message_section_lines}
use cli_pos.Sale.Goods.{
  AllInTable, listed_of, listed_of_lem, length-cart_of, codes_listed-take, Memᴰ-IsHeld,
  Memᴰ-listed_of,
}

-- A server with a table that a sale does not change: on a connection that is idle a transaction can be
-- opened, in a transaction the table is listed and each product of it is sent, and a transaction ends on
-- an idle connection, whether it is committed or not.
pub record IsSteady {C D : Type 0} (d : Double D) (q : Pqxx C D) (names : List Text)
    (all : List (Listed D)) (Idle Open : C → Type 0) : Type 0 where
  pub opens : (c : C) → Idle c → (opened : C) × (q.begin c ≡ answer opened) × Open opened
  pub commits :
      (c : C) → Open c → (committed : C) × (q.commit c ≡ answer committed) × Idle committed
  pub finishes : (c : C) → Idle c → Idle (q.finish c)
  pub gives_up : (c : C) → Open c → Idle (q.finish c)
  pub lists : (c : C) → Open c → Serves q names (codes_listed all) c
  pub sends : (c : C) → Open c → (x : Listed D) → Memᴰ x all → Stocks d q x.product x.texts c

-- The names of the products fit the column.
abbrev pub AllFit : {D : Type 0} → ℤ → List (Listed D) → Type 0
AllFit m [] = Unit {0}
AllFit m (x ∷ xs) = (length x.product.name ≤ to_size m) × AllFit m xs

module _ {D : Type 0} where
  pub Memᴰ-AllFit :
      (m : ℤ) (xs : List (Listed D)) (x : Listed D)
      → AllFit m xs
      → Memᴰ x xs
      → length x.product.name ≤ to_size m
  Memᴰ-AllFit m [] x h e = absurd (Memᴰ.not-nil e)
  Memᴰ-AllFit m (y ∷ xs) x h (Memᴰ.head e) =
      subst (λ y. length y.product.name ≤ to_size m) (sym e) h.0
  Memᴰ-AllFit m (y ∷ xs) x h (Memᴰ.tail k) = Memᴰ-AllFit m xs x h.1 k

  Memᴰ-take : (n : ℕ) (xs : List (Listed D)) (x : Listed D) → Memᴰ x (take n xs) → Memᴰ x xs
  Memᴰ-take zero xs x m = absurd (Memᴰ.not-nil m)
  Memᴰ-take (suc n) [] x m = absurd (Memᴰ.not-nil m)
  Memᴰ-take (suc n) (y ∷ xs) x (Memᴰ.head e) = Memᴰ.head e
  Memᴰ-take (suc n) (y ∷ xs) x (Memᴰ.tail m) = Memᴰ.tail (Memᴰ-take n xs x m)

module _ {C D : Type 0} (d : Double D) (q : Pqxx C D) where
  pub served_lem :
      (c : C) (xs : List (Listed D))
      → ((x : Listed D) → Memᴰ x xs → Stocks d q x.product x.texts c)
      → AllServed d q xs c
  served_lem c [] h = tt
  served_lem c (x ∷ xs) h = (h x (Memᴰ.head refl), served_lem c xs (λ y m. h y (Memᴰ.tail m)))

  pub stocked_lem :
      (c : C) (all : List (Listed D)) (items : List (Item D))
      → ((x : Listed D) → Memᴰ x all → Stocks d q x.product x.texts c)
      → AllInTable all items
      → AllStocked d q items c
  stocked_lem c all [] h k = tt
  stocked_lem c all (i ∷ items) h k = (h _ k.0, stocked_lem c all items h k.1)

module _ {C D : Type 0} ⦃d : Double D⦄ ⦃q : Pqxx C D⦄ (c : C) (cart : List (BasketProduct D)) where
  pub drawable_lem :
      (m : ℤ) (columns : Columns) (xs : List (Listed D))
      → ((x : Listed D) → Memᴰ x xs → IsDrawable c cart m columns x)
      → AllDrawable c cart m columns xs
  drawable_lem m columns [] h = tt
  drawable_lem m columns (x ∷ xs) h =
      (h x (Memᴰ.head refl), drawable_lem m columns xs (λ y k. h y (Memᴰ.tail k)))

fitted_lem : (most size : ℤ) (v : View) → fitted most size v ≡ set_stop most size v
unfolding set_stop
fitted_lem most size v = elim (Bool-cases (geb_ℤ most size)) [
  | inl room ↦ rw room refl
  | inr full ↦ rw full refl
]

module _ {A : Type 0} where
  pub window_lem :
      (n : ℕ) (xs : List A) (v : View)
      → v.start ≡ pos 0
      → slice xs (fitted (pos n) (pos (length xs)) v) ≡ ok (take n xs)
  window_lem n xs v e = rw (fitted_lem (pos n) (pos (length xs)) v) (elim (dec_lt n (length xs)) [
    | yes more ↦ slice-visible xs n 0 v e (omega arith) (inr (omega arith))
    | no fits ↦ slice-visible xs n 0 v e (omega arith) (inl (omega arith))
  ])

one_less : (n : ℕ) → pos (suc n) -ℤ one ≡ pos n
unfolding ◌-ℤ◌
one_less n = ground arith

pub room_lem :
    (lines : ℤ) (most : ℕ) (tab : Tab)
    → half (lines -ℤ pos 3 -ℤ pos message_section_lines) ≡ pos (suc most)
    → (n : ℕ) × (max_products_nr lines tab ≡ pos n)
unfolding max_products_nr
room_lem lines most products e = (suc most, e)
room_lem lines most basket e = (most, rw e (one_less most))
room_lem lines most stock e = (suc most, e)

module _ {D : Type 0} (all : List (Listed D)) where
  -- The rows that a tab shows from the top of its list on, with room for `n` of them.
  abbrev pub rows_of : Tab → ℕ → List (Item D) → List (Listed D)
  rows_of basket n items = take n (listed_of items)
  rows_of products n items = take n all
  rows_of stock n items = take n all

  pub rows_lem :
      (tab : Tab) (n : ℕ) (items : List (Item D))
      → take n (listed_on tab (codes_listed all) (codes_of (cart_of items)))
        ≡ codes_listed (rows_of tab n items)
  rows_lem basket n items =
      ap (take n) (sym (listed_of_lem items)) ∙ sym (codes_listed-take n (listed_of items))
  rows_lem products n items = sym (codes_listed-take n all)
  rows_lem stock n items = sym (codes_listed-take n all)

  pub size_lem :
      (tab : Tab) (items : List (Item D))
      → entries tab (length (cart_of items)) (length (codes_listed all))
        ≡ length (listed_on tab (codes_listed all) (codes_of (cart_of items)))
  size_lem basket items = length-cart_of items
  size_lem products items = refl
  size_lem stock items = refl

module _ {C D : Type 0} ⦃d : Double D⦄ ⦃q : Pqxx C D⦄ (all : List (Listed D)) where
  -- A row that can be drawn, on the tabs that sell.
  pub row_lem :
      (tab : Tab) (n : ℕ) (items : List (Item D)) (m : ℤ) (c : C) (x : Listed D)
      → Sells tab
      → AllFit m all
      → AllInTable all items
      → ((x : Listed D) → Memᴰ x all → Stocks d q x.product x.texts c)
      → Memᴰ x (rows_of all tab n items)
      → IsDrawable c (cart_of items) m (columns_of tab) x
  row_lem products n items m c x sells fit known sent k =
      let there = Memᴰ-take n all x k in
      record {
        stocked = sent x there;
        name_fits = Memᴰ-AllFit m all x fit there;
        quantity = d.of_int (pos 0);
        known = λ e. cc;
      }
  row_lem basket n items m c x sells fit known sent k =
      let held = Memᴰ-take n (listed_of items) x k in
      let there = Memᴰ-listed_of all items x known held in
      record {
        stocked = sent x there;
        name_fits = Memᴰ-AllFit m all x fit there;
        quantity = (Memᴰ-IsHeld items x held).0;
        known = λ e. (Memᴰ-IsHeld items x held).1;
      }
  row_lem stock n items m c x sells fit known sent k = absurd sells

module _ {D : Type 0} ⦃d : Double D⦄ where
  pub total_lem :
      (tab : Tab) (m : ℤ) (total : D)
      → Sells tab
      → TotalFits (table_width m (columns_of basket)) total
      → (columns_of tab).total ≡ true
      → TotalFits (table_width m (columns_of tab)) total
  total_lem products m total sells fits e = cc
  total_lem basket m total sells fits e = fits
  total_lem stock m total sells fits e = cc
