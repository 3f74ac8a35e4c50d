-- ===== src/Runtime.antt =====
-- The runtime: compiler+runtime/src/cpp/jank/runtime.
pub mod Munge
pub mod UniqueString
pub mod ArrayMap
pub mod ArityFlags
pub mod VariadicCall
pub mod Chunk
