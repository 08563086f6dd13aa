-- ===== src/MxfList.antt =====
-- mxf/mxf_list.c: the singly linked list that the library keeps its objects in.
pub mod Defs
pub mod Iter
pub mod Spec
pub mod Refine
