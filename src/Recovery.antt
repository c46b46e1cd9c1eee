-- ===== src/Recovery.antt =====
-- recovery_service.py: the projection of a terminal result to files, and the cleanup after it.
mod Service
pub mod Settling
pub mod Repeating
unfoldable pub use Service.*
