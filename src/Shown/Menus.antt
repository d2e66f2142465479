-- ===== src/Shown/Menus.antt =====
-- text::program.name and the labels in text::menus of src/h_files/text.h.
pub mod Shop
pub mod ReceiptPrinter
pub mod BarcodeScanner
use cli_pos.Text.{Text, codes}

abbrev pub program_name : Text
program_name = codes "cli_pos"

abbrev pub products_label : Text
products_label = codes "Products"

abbrev pub settings_label : Text
settings_label = codes "Settings"

abbrev pub shop_label : Text
shop_label = codes "Shop"

abbrev pub barcode_scanner_label : Text
barcode_scanner_label = codes "Barcode scanner"

abbrev pub receipt_printer_label : Text
receipt_printer_label = codes "Receipt printer"

abbrev pub peripherals_label : Text
peripherals_label = codes "Peripherals"

abbrev pub colorscheme_label : Text
colorscheme_label = codes "Colorschem"

abbrev pub users_label : Text
users_label = codes "Users"
