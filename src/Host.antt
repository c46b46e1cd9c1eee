-- ===== src/Host.antt =====
-- infrastructure/measurement: the import of local histories (decoding.py, host_events.py,
-- history.py).
mod Decoding
mod Entries
mod Feeding
mod Claude
pub mod Issues
pub mod Completeness
pub mod Selection
pub mod Credit
pub mod Range
pub mod Totals
mod Lines
mod History
mod Reading
unfoldable pub use Decoding.*
unfoldable pub use Entries.*
unfoldable pub use Feeding.*
unfoldable pub use Claude.*
unfoldable pub use Lines.*
unfoldable pub use History.*
unfoldable pub use Reading.*
