-- ===== src/Receipt.antt =====
-- append_nr and print_receipt of src/main.cpp.
pub mod Text
pub mod Print
pub mod Copies
