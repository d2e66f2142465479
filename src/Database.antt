-- ===== src/Database.antt =====
-- src/database_functions.cpp: the statements that the program sends, and the functions that send
-- them on a transaction of the connection.
pub mod Statement
pub mod Query
pub mod Reads
pub mod Row
pub mod Transaction
