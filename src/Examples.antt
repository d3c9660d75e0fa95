-- ===== src/Examples.antt =====
-- Small trees, on which the theorems are applied.
pub mod Trees
pub mod Nodes
pub mod Values
pub mod Removals
pub mod Sessions
