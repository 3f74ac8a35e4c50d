-- ===== src/Ir/Opt.antt =====
-- The optimisation passes: compiler+runtime/src/cpp/jank/ir/opt.
pub mod RemoveNops
pub mod Hoist
pub mod HoistLiterals
pub mod HoistVarDerefs
