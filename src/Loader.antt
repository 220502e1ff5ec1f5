-- ===== src/Loader.antt =====
-- `deep_load` of src/deep_loader.c: the reader (Reader), the decoders of the sections (Sections,
-- Locals and Functions for the function and code sections), the linked list of the sections (List) and
-- the loader itself (Load).
pub mod Reader
pub mod Sections
pub mod Locals
pub mod Functions
pub mod List
pub mod Load
pub mod Reads
pub mod RoundTrip
pub mod Linked
pub mod Assembled
mod Tests
