-- ===== src/EssenceContainer.antt =====
-- mxf/mxf_essence_container.c: essence elements, and the track numbers in their keys.
pub mod Defs
pub mod Laws
pub mod Read
pub mod RoundTrip
