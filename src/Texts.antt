-- ===== src/Texts.antt =====
-- Python's text methods, over code points: `startswith`, `in`, `find` and `replace`.
mod Search
mod Keeping
mod Utf8
unfoldable pub use Search.*
pub use Keeping.*
unfoldable pub use Utf8.*
