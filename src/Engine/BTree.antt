-- ===== src/Engine/BTree.antt =====
-- engine/src/engine/btree.cpp: the B-tree over pages.
pub mod Node
pub mod Leaf
pub mod Pages
pub mod Overflow
pub mod Descent
