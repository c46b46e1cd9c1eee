-- ===== src/Domain.antt =====
-- domain.py: the contracts of workflows and runs, and the typed life cycle of a run.
mod Enums
mod Contracts
mod Runs
mod Construction
pub mod Lifecycle
unfoldable pub use Enums.*
unfoldable pub use Contracts.*
unfoldable pub use Runs.*
unfoldable pub use Construction.*
