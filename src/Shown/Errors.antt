-- ===== src/Shown/Errors.antt =====
-- text::errors of src/h_files/text.h.
use cli_pos.Text.{Text, codes}

abbrev pub terminal_no_color : Text
terminal_no_color = codes "Terminal does not support colors. Program will run in monochrome mode!"

abbrev pub no_product_to_modify : Text
no_product_to_modify = codes "No products to modify!"

abbrev pub basket_not_empty : Text
basket_not_empty = codes "Products still in basket! Exit anyway? (y, N)"

abbrev pub no_commas : Text
no_commas = codes "can't contain commas! Try again!"

abbrev pub product_not_found : Text
product_not_found = codes "No product with this code found."

abbrev pub receipt_printing : Text
receipt_printing = codes "Could not print reciept"

abbrev pub no_items_in_basket : Text
no_items_in_basket = codes "No items in basket!"
