-- ===== src/Ledger.antt =====
-- infrastructure/run_repository.py: the ledger of runs, their owners, leases and resource locks.
mod Tables
mod Operations
mod Rows
pub mod History
mod Changes
pub mod Finality
pub mod Locks
pub mod Leases
unfoldable pub use Tables.*
unfoldable pub use Operations.*
unfoldable pub use Rows.*
