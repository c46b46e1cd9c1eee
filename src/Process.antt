-- ===== src/Process.antt =====
-- infrastructure/process.py and infrastructure/process_guardian.py: the process of a workflow, the
-- guardian that owns its group, and the worker that captures its streams.
mod Status
mod Guardian
mod Capture
pub mod Chunks
pub mod Guarding
pub mod Bounds
unfoldable pub use Status.*
unfoldable pub use Guardian.*
unfoldable pub use Capture.*
