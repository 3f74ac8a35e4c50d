-- ===== src/Ir/Processor/HighestArity.antt =====
-- The arities of a function: `arity_flags` of compiler+runtime/src/cpp/jank/ir/processor.cpp.
use jank.Prelude.{ℕ, none, some}
use jank.Ir.Processor.{Highest}

-- The parameters of the highest fixed arity so far.
abbrev pub fixed_count : Highest → ℕ
fixed_count (v, none) = 0
fixed_count (v, some f) = f.param_count
