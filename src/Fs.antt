-- ===== src/Fs.antt =====
-- The file system of fs/: the keys of its entries in the tree, and the merge of two trees.
pub mod BlockKey
pub mod Merge
