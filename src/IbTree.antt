-- ===== src/IbTree.antt =====
-- The immutable B+ tree of ibtree/: nodes, the stack that walks them, and the operations on trees.
pub mod BinarySearch
pub mod Node
pub mod Stack
pub mod Walk
pub mod Delta
pub mod Edit
pub mod KeyTree
pub mod SubTree
pub mod Tests
