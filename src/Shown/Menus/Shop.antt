-- ===== src/Shown/Menus/Shop.antt =====
-- text::menus.main.settings.shop of src/h_files/text.h.
use cli_pos.Text.{Text, codes}

abbrev pub name : Text
name = codes "Name"

abbrev pub code : Text
code = codes "Code"

abbrev pub addres : Text
addres = codes "Addres"
