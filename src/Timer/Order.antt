-- ===== src/Timer/Order.antt =====
-- The functions of one register are visited in the order of a `HashMap`, which is not fixed. Where
-- their masks are apart, the word that `handle_reg_read` of src/backend/compare_match_timer.rs makes
-- does not depend on it.
pub mod Patch
mod Commute
pub use Commute.{IsApart, Apart, Acts-lt, handle_reg_read_order}
