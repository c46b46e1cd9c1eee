-- ===== src/Artifacts.antt =====
-- infrastructure/logs.py and the paged artifacts of infrastructure/files.py: what is kept of a run.
mod Logs
mod Pages
pub mod Lossless
pub mod Paging
unfoldable pub use Logs.*
unfoldable pub use Pages.*
