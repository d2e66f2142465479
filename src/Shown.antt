-- ===== src/Shown.antt =====
-- The texts of the screen and the receipt: src/h_files/text.h, as far as the program prints them.
pub mod Errors
pub mod Info
pub mod ProductCriteria
pub mod Menus
