-- ===== src/Lib.antt =====
-- The jank compiler's intermediate representation (IR) and parts of its runtime.
--
-- The program. jank compiles Clojure. The analyzer turns a form into expressions; the IR generator
-- turns those into modules of functions, each a list of blocks of instructions; optimisation passes
-- rewrite the functions; the code generator prints C++ from them. Names of jank become names of C++
-- by munging, and the passes ask the current namespace's counter for fresh names. This library
-- models the IR, the generator, the dominators of its control flow graph, the passes that work by
-- renaming, the naming, the short maps, the chunks and the variadic calls of the runtime, and the
-- escape sequences, trimming and ordinals of strings.
--
-- The files, with the code they model (paths below compiler+runtime/):
--   Ir/Instruction    include/cpp/jank/ir/instruction.hpp, src/cpp/jank/ir/instruction.cpp: a
--                     constructor of `Op` for each instruction kind, `is_terminator`
--   Ir/Function       include/cpp/jank/ir/processor.hpp, src/cpp/jank/ir/processor.cpp: `block`,
--                     `function`, `add_block`, `remove_block`, `find_block`, `has_terminator`
--   Ir/Rewrite        src/cpp/jank/ir/rewrite.cpp and `uses_name` of util.cpp
--   Ir/Walk           src/cpp/jank/ir/walk.cpp: `walk_references`
--   Ir/Dominance      src/cpp/jank/ir/dominance.cpp: `lcd` here, `build_rpo` in Rpo, `build_idom`
--                     and `build_dominance` in Idom
--   Ir/Opt            src/cpp/jank/ir/opt/: remove_nops.cpp, hoist_literals.cpp,
--                     hoist_var_derefs.cpp; what the last two share stands in Hoist
--   Runtime/Munge     src/cpp/jank/runtime/core/munge.cpp: the tables, `munge`, `demunge`
--   Runtime/UniqueString
--                     src/cpp/jank/runtime/context.cpp: `unique_string`
--   Ir/Builder        src/cpp/jank/ir/builder.cpp and its header: names and blocks here, the
--                     operations that emit instructions in Emit, Values, Control and Cpp
--   Ir/Processor      src/cpp/jank/ir/processor.cpp: `gen` in Gen, the steps it takes in Steps,
--                     Branches, Loops and Functions
--   Analyze/Expr      src/cpp/jank/analyze/expr/ and include/cpp/jank/analyze/: what the generator
--                     reads of an expression, `propagate_position`
--   Runtime/ArrayMap  src/cpp/jank/runtime/detail/native_array_map.cpp and its header: the
--                     operations; Entries holds the abstract map, Represents relates the two
--   Util/Escape       src/cpp/jank/util/escape.cpp, and the surrogates and `to_char` of
--                     src/cpp/jtl/utf8.cpp
--   Runtime/ArityFlags, Runtime/VariadicCall
--                     include/cpp/jank/runtime/core/call.hpp and
--                     src/cpp/jank/runtime/obj/jit_variadic_function.cpp: arity flags, and the
--                     overloads of `call`
--   Util/Trim, Util/Ordinal
--                     src/cpp/jank/util/string.cpp: `trim`, `capitalize`, `ordinal_under_100`,
--                     `number_to_ordinal`
--   Runtime/Chunk     src/cpp/jank/runtime/obj/array_chunk.cpp and chunk_buffer.cpp, and their headers
--   Prelude           shared names, Boolean tests, lists, bytes, association lists
--   Tests             runs on concrete functions and names
--
-- The state. A function is a record of its blocks and, once dominance is built, the immediate
-- dominators, the reverse post order and its indices. A pass takes the blocks and the counter of
-- generated names and returns both. Text is a list of bytes. Hash maps are association lists in the
-- order of first insertion. A panic, a thrown
-- `at` and a failed cast are `none`. Clang types, source positions, runtime objects and expressions
-- are handles, which this code only copies; the comparison of literals and the test for dynamic vars
-- are arguments of the passes.
--
-- Bounds and fuel. `lcd` runs on fuel for its outer loop, and each inner loop on as much; the sum of
-- the two indices plus one is enough, so the callers give twice the number of blocks. `build_rpo`
-- has fuel for the depth of its calls; one more than the number of blocks is enough. `remove_nops`
-- has one more than the number of instructions, and `demunge` one step for each byte, as every step
-- consumes one. The sweeps of `build_idom` take their number as an argument.
--
-- The short map. An array access that leaves the array is an outcome of its own. Indices, length and
-- capacity are 8-bit numbers, and wrap where the source adds to them. The loops have fuel for one
-- round more than there are slots.
--
-- Escape sequences. The loop of `unescape` has fuel for one round for each byte, as every round
-- consumes one. The conversion of code points by the locale (`std::wcrtomb`) is an argument.
--
-- The builder and the generator. They read and write one record, the builder, which has the blocks
-- of the function it builds; the function goes to the module when it is complete. Code that uses
-- undefined behaviour or fails a debug assertion is `none`, as is the exception for a type that
-- stands where a value is needed. The loop of `next_ident` has fuel for one round more than there
-- are used names; the count does not wrap. `gen` recurs on the expression; a position that the
-- source writes into a part before it generates it is an argument, and
-- `propagate_position` writes it into the expression; Ir/Processor/Positions relates the two.
-- The types of clang and the equality of constants are arguments, collected in `Host`.
--
-- Strings and chunks. What is a space and the capital of a letter depends on the locale: an argument.
-- The ordinals are checked for each number below 1000. An exception of a chunk or a buffer and a read
-- outside of a vector are outcomes of their own; offsets and counts wrap at 2^64.
--
-- Not modelled: the end of `create`, which runs the passes, the traversal of the IR `walk` and the pass that
-- hoists scoped values, the lexer, the parser, the analyzer, the printing of IR and of C++, the JIT
-- and the ahead-of-time compiler, and most of the runtime, which rests on libraries that are not in
-- the repository; file, terminal and network access.
pub mod Prelude
pub mod Analyze
pub mod Ir
pub mod Runtime
pub mod Util
mod Tests
