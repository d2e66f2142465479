-- ===== src/World.antt =====
-- What the program runs on: the terminal, the database connection, the printer and its own global
-- variables (src/definitions_and_variables.cpp, src/h_files/definitions_and_variables.h,
-- src/h_files/shop_data.h), with the effects that the functions of the program are written in.
pub mod Double
pub mod Pqxx
pub mod State
pub mod Monad
pub mod Drawing
pub mod Pick
pub mod Returns
pub mod Sequence
