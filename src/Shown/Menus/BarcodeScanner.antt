-- ===== src/Shown/Menus/BarcodeScanner.antt =====
-- text::menus.main.settings.peripherals.barcode_scanner of src/h_files/text.h.
use cli_pos.Text.{Text, codes}

abbrev pub prefix : Text
prefix = codes "Barcode prefix"

abbrev pub scan_a_code : Text
scan_a_code = codes "Please scan a code to get the prefix!"

abbrev pub current_prefix : Text
current_prefix = codes "You're current prefix is: "
