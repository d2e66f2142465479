-- ===== src/Progress.antt =====
-- The loops of src/ as a whole: the keys that each call takes, and the basket behind it.
pub mod Rules
pub mod Calls
pub mod Results
pub mod Database
pub mod Typed
pub mod Screen
pub mod Forms
pub mod Menus
pub mod Shown
pub mod Keys
pub mod Program
pub mod Whole
pub mod While
