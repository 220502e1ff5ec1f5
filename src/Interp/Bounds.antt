-- ===== src/Interp/Bounds.antt =====
-- What the interpreter keeps while it runs: the stack pointers stay inside the stack, the control
-- stack is balanced, and the sizes of the memory, the table and the globals do not change.
pub mod Numeric
pub mod Variables
pub mod Memory
pub mod Calls
pub mod Control
pub mod Loop
pub mod Start
