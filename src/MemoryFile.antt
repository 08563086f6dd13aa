-- ===== src/MemoryFile.antt =====
-- mxf/mxf_memory_file.c: a file in memory, in chunks of one size.
pub mod Defs
pub mod Layout
pub mod Locate
pub mod Valid
pub mod Read
pub mod Chunks
pub mod WriteLoop
pub mod WriteAt
pub mod Extend
pub mod Write
pub mod Seek
pub mod Laws
pub mod Gap
