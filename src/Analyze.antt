-- ===== src/Analyze.antt =====
-- The analyser's results: compiler+runtime/include/cpp/jank/analyze.
pub mod Expr
