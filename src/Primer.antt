-- ===== src/Primer.antt =====
-- mxf/mxf_primer.c: the primer pack, which maps local tags to the UIDs of metadata items.
pub mod Defs
pub mod Tags
pub mod Register
pub mod Codec
