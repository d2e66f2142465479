-- ===== src/Shown/Info.antt =====
-- text::info of src/h_files/text.h.
use cli_pos.Text.{Text, codes}

abbrev pub product : Text
product = codes "Product"

abbrev pub search_label : Text
search_label = codes "Search: "

abbrev pub total : Text
total = codes "TOTAL"

abbrev pub shop_code : Text
shop_code = codes "CUI: "

abbrev pub reprint_receipt : Text
reprint_receipt = codes "Reprint receipt?(y, N)"
