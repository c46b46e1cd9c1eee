-- ===== src/Export.antt =====
-- export_*.py: the optional delivery of selected statistics.
mod Contracts
mod Projection
pub mod Consent
mod State
mod Service
mod Configuring
pub mod Disabling
pub mod Delivery
pub mod Numbering
unfoldable pub use Contracts.*
unfoldable pub use Projection.*
unfoldable pub use State.*
unfoldable pub use Service.*
unfoldable pub use Configuring.*
