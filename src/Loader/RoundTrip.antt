-- ===== src/Loader/RoundTrip.antt =====
-- The section decoders of src/deep_loader.c on the sections that src/deep_wat.c writes: types
-- (Types), names (Names), tables, memories and globals (Values), and segments (Segments).
pub mod Types
pub mod Names
pub mod Values
pub mod Segments
pub mod Locals
pub mod Offsets
pub mod Functions
pub mod Sections
pub mod Modules
pub mod Whole
pub mod Steps
pub mod Entries
pub mod Loaded
