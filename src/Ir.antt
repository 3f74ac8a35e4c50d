-- ===== src/Ir.antt =====
-- The intermediate representation: compiler+runtime/src/cpp/jank/ir.
pub mod Instruction
pub mod Function
pub mod Rewrite
pub mod Builder
pub mod Processor
pub mod Walk
pub mod Dominance
pub mod Opt
