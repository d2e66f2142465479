-- ===== src/Basket.antt =====
-- The basket of src/main.cpp: add_product_to_basket, and what the key `R` does to it.
pub mod Quantity
pub mod Remove
pub mod Distinct
pub mod Abstract
use cli_pos.Base.{◌≡◌, refl, Bool, true, false, List, [], ◌∷◌, ◌++◌, if◌then◌else◌}
use cli_pos.Base.Int.{ℤ, pos, eq_ℤ}
use cli_pos.Fault.{Result, ok, err, undefined}
use cli_pos.Product.{Product}
use cli_pos.World.Double.{Double}
use cli_pos.World.State.{BasketProduct}

abbrev pub entry : {D : Type 0} → ℤ → D → BasketProduct D
entry c q = record { code = c; quantity = q }

module _ {D : Type 0} ⦃d : Double D⦄ where
  -- The loop over the basket, with the value that `product_already_in_basket` holds: the quantity of
  -- the first entry with the code grows.
  unfoldable pub add_from : Bool → ℤ → D → List (BasketProduct D) → Bool × List (BasketProduct D)
  add_from found code quantity [] = (found, [])
  add_from found code quantity (b ∷ basket) = elim (eq_ℤ b.code code) [
    | true ↦ (true, entry b.code (d.add b.quantity quantity) ∷ basket)
    | false ↦ let rest = add_from false code quantity basket in (rest.0, b ∷ rest.1)
  ]

  -- `garbage` is what the uninitialised flag holds.
  unfoldable pub add_product_to_basket :
      Bool → Product D → D → List (BasketProduct D) → List (BasketProduct D)
  add_product_to_basket garbage product quantity basket =
      let (found, basket') = add_from garbage product.code quantity basket in
      if found then basket' else basket' ++ (entry product.code quantity ∷ [])

  -- The key `R` on the tab BASKET: the first entry with the code loses one, and is erased at 0. With
  -- no such entry `basket[basket.size()]` is read.
  unfoldable pub remove_one : ℤ → List (BasketProduct D) → Result (List (BasketProduct D))
  remove_one code [] = err undefined
  remove_one code (b ∷ basket) = elim (eq_ℤ b.code code) [
    | true ↦
        let less = d.sub b.quantity (d.of_int (pos 1)) in
        ok (if d.eq less (d.of_int (pos 0)) then basket else entry b.code less ∷ basket)
    | false ↦ elim (remove_one code basket) [ ok rest ↦ ok (b ∷ rest) | err f ↦ err f ]
  ]
