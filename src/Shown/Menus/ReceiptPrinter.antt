-- ===== src/Shown/Menus/ReceiptPrinter.antt =====
-- text::menus.main.settings.peripherals.receipt_printer of src/h_files/text.h.
use cli_pos.Text.{Text, codes}

abbrev pub printer_device_file : Text
printer_device_file = codes "Printer file location"

abbrev pub cpl : Text
cpl = codes "Characters per line"

abbrev pub newlines : Text
newlines = codes "Nr of newlines"

abbrev pub newlines_description : Text
newlines_description = codes "How many lines is the printer going to put at the end of the receipt"
