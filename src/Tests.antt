-- ===== src/Tests.antt =====
-- Runs at concrete inputs of the operations that the theorems are about.
mod Names
mod Line
mod Cart
mod Choice
mod Table
mod Shelf
mod Scanner
mod Screen
