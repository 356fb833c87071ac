-- ===== src/Search.antt =====
-- src/search.c: the hash table, the linked queue, the linear search and the binary tree.
pub mod Linear
pub mod Queue
pub mod Tree
