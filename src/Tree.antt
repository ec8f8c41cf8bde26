-- ===== src/Tree.antt =====
-- ci_tree.c: the ordered map of the language, a B-tree. `Node` and `Search` are the functions on one
-- node, `Find`, `Set`, `Delete` and `Iter` the operations, `Order` the sorted list that a tree stands for.
mod Tests
pub mod Order
pub mod Search
pub mod Node
pub mod State
pub mod Find
pub mod Set
pub mod Delete
pub mod Iter
pub mod Reads
