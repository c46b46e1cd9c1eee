-- ===== src/Measurement.antt =====
-- measurement/ and infrastructure/measurement/: the accounting of observed tasks.
mod Contracts
mod Equality
mod Repository
mod Tables
mod Comparison
mod Estimation
mod Service
mod Import
pub mod Credit
pub mod Accounting
pub mod Immutable
pub mod Retention
pub mod Savings
pub mod Baselines
unfoldable pub use Contracts.*
unfoldable pub use Equality.*
unfoldable pub use Repository.*
unfoldable pub use Tables.*
unfoldable pub use Comparison.*
unfoldable pub use Estimation.*
unfoldable pub use Service.*
unfoldable pub use Import.*
