-- ===== src/Wat.antt =====
-- The assembler of src/deep_wat.c: the sections that `assemble_module` writes (Sections, Bodies),
-- and the whole (Modules).
pub mod Sections
pub mod Bodies
pub mod Modules
pub mod Strings
pub mod Tokens
pub mod Trees
pub mod Numbers
pub mod Types
mod Tests
pub mod Mnemonics
pub mod Scopes
pub mod Source
pub mod Forms
