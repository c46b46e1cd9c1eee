-- ===== src/Supervision.antt =====
-- supervisor.py: one execution of a run by a worker, from the policy check to the stored result.
mod Attempt
pub mod Results
mod Execution
pub mod Stored
unfoldable pub use Execution.*
unfoldable pub use Attempt.*
