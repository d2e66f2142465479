-- ===== src/Product.antt =====
-- `struct product` and `enum mesurments` of src/h_files/definitions_and_variables.h, with
-- to_mesurments of src/database_functions.cpp.
use cli_pos.Base.{ℕ, zero, suc, ◌≡◌, refl}
use cli_pos.Base.Int.{ℤ, pos}
use cli_pos.Text.{Text, codes}

pub data Mesurments : Type 0 where
  piece length weight : Mesurments

pub record Product (D : Type 0) : Type 0 where
  pub name : Text
  pub code : ℤ
  pub price : D
  pub discount : ℤ
  pub price_after_discount : D
  -- a `short int` that only ever holds a `char`: its byte
  pub tax : ℕ
  pub stock : D
  pub profit : D
  pub price_to_stock : D
  pub sold_by : Mesurments

-- The enumerators' values.
unfoldable pub to_nat : Mesurments → ℕ
to_nat piece = 0
to_nat length = 1
to_nat weight = 2

unfoldable pub to_mesurments : ℤ → Mesurments
to_mesurments (pos zero) = piece
to_mesurments (pos (suc zero)) = length
to_mesurments (pos (suc (suc zero))) = weight
to_mesurments _ = piece

-- The text of text::info.sold_by: its order is not that of the enumerators.
unfoldable pub sold_by_text : Mesurments → Text
sold_by_text piece = codes "BUC"
sold_by_text length = codes "KG"
sold_by_text weight = codes "M"

pub to_mesurments-to_nat : (m : Mesurments) → to_mesurments (pos (to_nat m)) ≡ m
unfolding to_mesurments to_nat
to_mesurments-to_nat piece = refl
to_mesurments-to_nat length = refl
to_mesurments-to_nat weight = refl
