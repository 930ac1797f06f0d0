-- ===== src/LinkedList.antt =====
-- The doubly linked list of src/core/atm_list.c.
pub mod Spec
pub mod Nodes
pub mod Seg
pub mod Steps
pub mod Pop
pub mod Push
pub mod Find
pub mod Release
pub mod Delete
pub mod Clear
pub mod Iter
