-- ===== src/Main.antt =====
-- src/main.cpp: the loop of main and what each key does.
pub mod Show
pub mod Keys
pub mod Loop
pub mod Lookup
pub mod Typed
pub mod Scan
pub mod Enter
pub mod Cursor
pub mod Color
pub mod Start
pub mod Change
pub mod Checkout
pub mod Found
pub mod Remove
pub mod Round
pub mod Quit
pub mod Dispatch
pub mod Session
