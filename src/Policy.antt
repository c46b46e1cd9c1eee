-- ===== src/Policy.antt =====
-- policy.py: applicability and permission.
mod Variables
mod Check
pub mod Secrets
pub mod Permission
unfoldable pub use Variables.*
unfoldable pub use Check.*
