-- ===== src/Interp/Exec.antt =====
-- `exec_instructions`, `enter_frame` and `call_function` of src/deep_interp.c.
mod Calls
mod Control
mod Loop
unfoldable pub use Calls.*
unfoldable pub use Control.*
unfoldable pub use Loop.*
