-- ===== src/Table.antt =====
-- The tables of src/main.cpp (src/drawing_functions.cpp holds a copy that the build leaves out):
-- print_table_head_section, nr_length and draw_product_list, with clear_messages.
pub mod Pair
pub mod Head
pub mod Row
pub mod Layout
pub mod Messages
pub mod Draws
pub mod Listed
