-- ===== src/Tree.antt =====
-- mxf/mxf_tree.c: an AVL binary search tree.
pub mod Defs
pub mod Balance
pub mod Rotate
pub mod Mirror
pub mod Join
pub mod Order
pub mod Insert
pub mod Remove
pub mod Search
pub mod Reached
