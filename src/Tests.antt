-- ===== src/Tests.antt =====
-- Tests of the modelled functions of mxf/, and the theorems at concrete inputs.
pub mod Plain
mod File
mod MxfList
mod Primer
mod Partition
mod IndexTable
pub mod MemoryFile
mod Tree
mod EssenceContainer
