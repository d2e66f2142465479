-- ===== src/Menu/Data.antt =====
-- The menus, as the source lists them. A pointer to a variable is the name of the variable, and a
-- pointer to a menu the name of the menu.
use cli_pos.Shown.Menus.BarcodeScanner
use cli_pos.Shown.Menus
use cli_pos.Shown.Menus.ReceiptPrinter
use cli_pos.Shown.Menus.Shop
use cli_pos.Base.{ℕ, Bool, true, false, List, [], ◌∷◌, length, ltb, if◌then◌else◌}
use cli_pos.Base.Int.{ℤ, pos}
use cli_pos.Text.{Text, codes}
use cli_pos.World.State.{Settings}

pub data StringItem : Type 0 where
  shop_name shop_code shop_addres printer_device_file test_s : StringItem

pub data IntItem : Type 0 where
  max_name_length nr_of_newlines test_i : IntItem

pub data MenuName : Type 0 where
  submenu basic shop_settings printer_settings barcode_scanner peripherals settings main_menu
        variables menu_test :
      MenuName

-- The functions that an item may call.
pub data Action : Type 0 where
  test_function get_barcode_prefix : Action

-- menu_item_data. The only float and the only bool that a menu names are those of `namespace test`.
pub data ItemData : Type 0 where
  to_menu : MenuName → ItemData
  string_item : StringItem → ItemData
  funct : Action → ItemData
  int_item : IntItem → ItemData
  float_item : ItemData
  bool_item : ItemData
  exit_item : ItemData

pub record MenuItem : Type 0 where
  pub label : Text
  pub kind : ItemData
  pub color : ℤ
  pub description : Text

pub record Menu : Type 0 where
  pub options : List MenuItem
  pub name : Text
  pub centered : Bool

abbrev pub white_pair : ℤ
white_pair = pos 127

abbrev item : Text → ItemData → MenuItem
item label kind = record { label = label; kind = kind; color = white_pair; description = [] }

abbrev plain : List MenuItem → Menu
plain options = record { options = options; name = []; centered = false }

unfoldable pub menu_of : MenuName → Menu
menu_of submenu = plain (item (codes "exit") exit_item ∷ [])
menu_of basic = record {
  options =
      item (codes "function") (funct test_function) ∷ item (codes "submenu") (to_menu submenu) ∷ [];
  name = codes "Basic menu functions";
  centered = false;
}
menu_of shop_settings = plain (
    item Shop.name (string_item shop_name)
    ∷ item Shop.code (string_item shop_code)
    ∷ item Shop.addres (string_item shop_addres)
    ∷ [])
menu_of printer_settings = plain (
    item ReceiptPrinter.printer_device_file (string_item printer_device_file)
    ∷ item ReceiptPrinter.cpl (int_item max_name_length)
    ∷ record {
      label = ReceiptPrinter.newlines;
      kind = int_item nr_of_newlines;
      color = white_pair;
      description = ReceiptPrinter.newlines_description;
    }
    ∷ [])
menu_of barcode_scanner = plain (item BarcodeScanner.prefix (funct get_barcode_prefix) ∷ [])
menu_of peripherals = plain (
    item Menus.receipt_printer_label (to_menu printer_settings)
    ∷ item Menus.barcode_scanner_label (to_menu barcode_scanner)
    ∷ [])
menu_of settings = plain (
    item Menus.shop_label (to_menu shop_settings)
    ∷ item Menus.peripherals_label (to_menu peripherals)
    ∷ item Menus.colorscheme_label (to_menu submenu)
    ∷ item Menus.users_label (to_menu submenu)
    ∷ [])
menu_of main_menu = record {
  options = item Menus.products_label exit_item ∷ item Menus.settings_label (to_menu settings) ∷ [];
  name = Menus.program_name;
  centered = true;
}
menu_of variables = record {
  options =
      record {
        label = codes "string";
        kind = string_item test_s;
        color = pos 130;
        description = [];
      }
      ∷ record { label = codes "bool"; kind = bool_item; color = pos 128; description = [] }
      ∷ record { label = codes "int"; kind = int_item test_i; color = pos 131; description = [] }
      ∷ record { label = codes "float"; kind = float_item; color = pos 132; description = [] }
      ∷ [];
  name = codes "Variables";
  centered = false;
}
menu_of menu_test = record {
  options =
      item (codes "Basic") (to_menu basic) ∷ item (codes "Variables") (to_menu variables) ∷ [];
  name = codes "Testing menu";
  centered = true;
}

module _ {D : Type 0} where
  -- `*data.value`.
  unfoldable pub get_string_item : StringItem → Settings D → Text
  get_string_item shop_name s = s.shop_name
  get_string_item shop_code s = s.shop_code
  get_string_item shop_addres s = s.shop_addres
  get_string_item printer_device_file s = s.printer_device_file
  get_string_item test_s s = s.test_s

  -- `*data.value = v`.
  unfoldable pub set_string_item : StringItem → Text → Settings D → Settings D
  set_string_item shop_name v s = record s { shop_name = v }
  set_string_item shop_code v s = record s { shop_code = v }
  set_string_item shop_addres v s = record s { shop_addres = v }
  set_string_item printer_device_file v s = record s { printer_device_file = v }
  set_string_item test_s v s = record s { test_s = v }

  unfoldable pub get_int_item : IntItem → Settings D → ℤ
  get_int_item max_name_length s = s.max_name_length
  get_int_item nr_of_newlines s = s.nr_of_newlines
  get_int_item test_i s = s.test_i

  unfoldable pub set_int_item : IntItem → ℤ → Settings D → Settings D
  set_int_item max_name_length v s = record s { max_name_length = v }
  set_int_item nr_of_newlines v s = record s { nr_of_newlines = v }
  set_int_item test_i v s = record s { test_i = v }

-- max of the lengths of some texts, and of the labels of a menu.
unfoldable pub max_from : ℕ → List Text → ℕ
max_from max_length [] = max_length
max_from max_length (t ∷ s) =
    max_from (if ltb max_length (length t) then length t else max_length) s

unfoldable pub max : List Text → ℕ
max s = max_from 0 s

unfoldable pub labels : List MenuItem → List Text
labels [] = []
labels (o ∷ options) = o.label ∷ labels options

unfoldable pub max_menu_options_length : Menu → ℕ
max_menu_options_length menu = max_from 0 (labels menu.options)
