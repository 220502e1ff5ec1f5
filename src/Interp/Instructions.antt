-- ===== src/Interp/Instructions.antt =====
-- The instructions of `exec_instructions` in src/deep_interp.c that stay in their block: they move
-- the operand stack, the variables and the memory.
mod Memory
mod Variables
mod Numeric
unfoldable pub use Memory.*
unfoldable pub use Variables.*
unfoldable pub use Numeric.*
