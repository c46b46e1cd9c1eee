-- ===== src/Evidence.antt =====
-- verification.py: the policy by which reported evidence becomes the result of a run. Schema
-- validation (infrastructure/schema.py, over the jsonschema package) is the parameter `validate`.
mod Policy
pub mod Counting
pub mod Completion
unfoldable pub use Policy.*
