-- ===== src/Statistics.antt =====
-- statistics.py and statistics_service.py: the conservative savings model over retained runs.
mod Contracts
mod Service
mod Storage
pub mod Totals
pub mod Grouping
unfoldable pub use Contracts.*
unfoldable pub use Service.*
unfoldable pub use Storage.*
