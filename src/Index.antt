-- ===== src/Index.antt =====
-- The B+ tree index of observer/storage/index: keys, the items of a node, leaf and internal nodes, the tree.
mod Key
mod Items
mod Contents
mod Order
mod Leaf
mod Internal
mod Tree
mod Tests
mod Runs
mod Capacity
