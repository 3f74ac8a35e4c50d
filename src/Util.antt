-- ===== src/Util.antt =====
-- Utilities: compiler+runtime/src/cpp/jank/util.
pub mod Escape
pub mod Trim
pub mod Ordinal
