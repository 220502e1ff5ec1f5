-- ===== src/Interp.antt =====
-- The interpreter of src/deep_interp.c: the scan for the end of a block, the instructions, the
-- built-in functions, the call of a function and the entry of a block, and `call_main`.
pub mod ReadBlock
pub mod Instructions
pub mod Native
pub mod Exec
pub mod Main
pub mod Bounds
pub mod Behaviour
mod Tests
