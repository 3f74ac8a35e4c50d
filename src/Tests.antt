-- ===== src/Tests.antt =====
-- The theorems at concrete inputs, and runs of the definitions.
mod Dominance
mod Passes
mod Names
mod Maps
mod Strings
mod Builder
mod Calls
mod Words
mod Chunks
