-- ===== src/Interp/Behaviour.antt =====
-- What single instructions of src/deep_interp.c do on every input.
pub mod Operands
pub mod Growth
pub mod Indirect
pub mod Unset
pub mod Branches
pub mod Entries
pub mod Branching
