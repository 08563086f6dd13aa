-- ===== src/Partition.antt =====
-- mxf/mxf_partition.c: partition packs, fill items, the random index pack and the run-in.
pub mod Defs
pub mod Pack
pub mod Fill
pub mod Rip
pub mod Runin
pub mod Kinds
pub mod Links
pub mod Marks
pub mod Codec
pub mod Filled
pub mod Kag
pub mod Scan
pub mod RuninSearch
pub mod RuninMiss
pub mod RipCodec
