-- ===== src/Menu.antt =====
-- src/menus.cpp: the settings menus, the list that a choice is made from, and run_menu.
pub mod Data
pub mod Select
pub mod Pick
pub mod Edits
pub mod Run
pub mod Route
pub mod Way
