-- ===== src/Shown/ProductCriteria.antt =====
-- text::product_criteria of src/h_files/text.h.
use cli_pos.Text.{Text, codes}

abbrev pub name : Text
name = codes "NAME"

abbrev pub code : Text
code = codes "UPC"

abbrev pub price : Text
price = codes "PRICE"

abbrev pub discount_short : Text
discount_short = codes "DIS"

abbrev pub discount_long : Text
discount_long = codes "DISCOUNT"

abbrev pub price_after_dis : Text
price_after_dis = codes "PAD"

abbrev pub tax : Text
tax = codes "TAX"

abbrev pub quantity_short : Text
quantity_short = codes "QTY"

abbrev pub stock : Text
stock = codes "STOCK"

abbrev pub profit : Text
profit = codes "PROFIT"

abbrev pub price_to_stock : Text
price_to_stock = codes "PTS"

abbrev pub sold_by : Text
sold_by = codes "SOLD BY"
