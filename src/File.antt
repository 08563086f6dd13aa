-- ===== src/File.antt =====
-- mxf/mxf_file.c: the MXF file wrapper and its big-endian primitives.
pub mod Ops
pub mod Monad
pub mod Words
pub mod Length
pub mod Klv
pub mod Skip
pub mod Laws
