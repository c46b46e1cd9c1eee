-- ===== src/Catalog.antt =====
-- The catalogs of workflows: domain.py `Settings`, infrastructure/files.py `FileSettings`,
-- infrastructure/sqlite.py `SqliteWorkflows` and catalog_service.py.
mod Registry
mod Rows
mod Service
pub mod Trusting
pub mod Replacing
pub mod Finding
pub mod Refinement
unfoldable pub use Registry.*
unfoldable pub use Rows.*
unfoldable pub use Service.*
