-- ===== src/Vm.antt =====
-- The state of the virtual machine, the words that it computes with, and its instructions.
pub mod Int
pub mod State
pub mod Words
pub mod Floats
pub mod Keeps
pub mod Order
pub mod Zeros
pub mod Steps
mod Tests
