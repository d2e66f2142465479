-- ===== src/Sale.antt =====
-- A sale at the till, through the loop of src/main.cpp: products are entered, the receipt is printed, and
-- the program is left.
pub mod Goods
pub mod Till
pub mod Rounds
pub mod Entered
pub mod Checkout
pub mod Run
pub mod Update
pub mod Updated
