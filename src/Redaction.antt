-- ===== src/Redaction.antt =====
-- policy.py (`has_secret`) and supervisor.py (`clean_evidence`): looking for secret values in JSON,
-- and replacing them.
mod Defs
pub mod Keeping
unfoldable pub use Defs.*
