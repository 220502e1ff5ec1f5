-- ===== src/Opcode.antt =====
-- The opcodes of include/deep_opcode.h: their kinds, and the byte of each.
pub mod Kinds
pub mod Table
