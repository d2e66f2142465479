-- ===== src/Text.antt =====
-- `std::string` as the list of its bytes, and the literals of the program.
mod Decimal
pub mod RoundTrip
unfoldable pub use Decimal.*
