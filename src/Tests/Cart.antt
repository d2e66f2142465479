-- ===== src/Tests/Cart.antt =====
-- A basket of whole quantities.
use cli_pos.Base.{◌≡◌, ◌≢◌, refl, true, false, List, [], ◌∷◌, some, if◌then◌else◌}
use cli_pos.Base.Int.{ℤ, pos, ◌+ℤ◌, ◌-ℤ◌, ◌*ℤ◌, eq_ℤ}
use cli_pos.Fault.{Answer, answer, raise, no_number, ok, err}
use cli_pos.Product.{Product, weight}
use cli_pos.Text.{Text, codes, to_string, stol}
use cli_pos.World.Double.{Double}
use cli_pos.World.State.{BasketProduct}
use cli_pos.Basket.{entry, add_product_to_basket, remove_one}
use cli_pos.Basket.Quantity.{quantity_of, grown, IsDistinct, quantity_of-add}
use mathlib.Core.List.{Perm}
use cli_pos.Basket.Abstract.{add_comm}
use cli_pos.Basket.Remove.{Removes, AllCounted, remove_one-Removes, remove-add}

abbrev read_whole : Text → Answer ℤ
read_whole s = elim (stol s) [ ok z ↦ answer z | err _ ↦ raise no_number ]

-- Whole numbers stand for the `double`s.
instance unfoldable pub whole : Double ℤ
whole = record {
  of_int = λ z. z;
  add = λ a b. a +ℤ b;
  sub = λ a b. a -ℤ b;
  mul = λ a b. a *ℤ b;
  div = λ a b. a;
  eq = λ a b. eq_ℤ a b;
  truncate = λ z. z;
  to_float = λ z. z;
  print = to_string;
  print_fixed = λ _ z. to_string z;
  stod = read_whole;
  stof = read_whole;
}

abbrev pub rice : Product ℤ
rice = record {
  name = codes "rice";
  code = pos 5941;
  price = pos 12;
  discount = pos 0;
  price_after_discount = pos 12;
  tax = b'A';
  stock = pos 40;
  profit = pos 3;
  price_to_stock = pos 9;
  sold_by = weight;
}

abbrev pub two_entries : List (BasketProduct ℤ)
two_entries = entry (pos 17) (pos 1) ∷ entry (pos 5941) (pos 2) ∷ []

two_entries_full : two_entries ≢ []
two_entries_full e = cc

two_entries-IsDistinct : IsDistinct two_entries
unfolding eq_ℤ
two_entries-IsDistinct = ((refl, tt), (tt, tt))

quantity_of-add_example :
    quantity_of (pos 5941) (add_product_to_basket true rice (pos 3) two_entries) ≡ (
      if eq_ℤ rice.code (pos 5941)
      then some (grown (quantity_of (pos 5941) two_entries) (pos 3))
      else quantity_of (pos 5941) two_entries)
quantity_of-add_example = quantity_of-add true rice (pos 3) two_entries (pos 5941) two_entries_full

remove_one-Removes_example : Removes (pos 17) two_entries (remove_one (pos 17) two_entries)
remove_one-Removes_example = remove_one-Removes (pos 17) two_entries two_entries-IsDistinct

two_entries-AllCounted : AllCounted two_entries
unfolding whole eq_ℤ ◌+ℤ◌ ◌-ℤ◌
two_entries-AllCounted = ((refl, refl), ((refl, refl), tt))

one_counts : eq_ℤ (pos 1 -ℤ pos 1) (pos 0) ≡ true
unfolding eq_ℤ ◌-ℤ◌
one_counts = refl

remove-add_example :
    remove_one rice.code (add_product_to_basket false rice (pos 1) two_entries) ≡ ok two_entries
unfolding whole
remove-add_example =
    remove-add false rice two_entries two_entries_full two_entries-AllCounted one_counts

abbrev tea : Product ℤ
tea = record rice { name = codes "tea"; code = pos 17; price = pos 4 }

codes_differ : eq_ℤ rice.code tea.code ≡ false
unfolding eq_ℤ
codes_differ = refl

add_comm_example :
    Perm
      (add_product_to_basket false rice (pos 1) (add_product_to_basket false tea (pos 2) []))
      (add_product_to_basket false tea (pos 2) (add_product_to_basket false rice (pos 1) []))
add_comm_example = add_comm rice tea (pos 1) (pos 2) [] codes_differ
