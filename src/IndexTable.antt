-- ===== src/IndexTable.antt =====
-- mxf/mxf_index_table.c: index table segments.
pub mod Defs
pub mod Size
pub mod Arrays
pub mod Exact
pub mod Streamed
pub mod Read
pub mod Coded
pub mod Items
pub mod Deltas
pub mod Entries
pub mod EntriesRead
pub mod RoundTrip
