-- ===== src/Execution.antt =====
-- execution_service.py: starting, awaiting, cancelling and removing runs.
mod Service
pub mod Starting
unfoldable pub use Service.*
