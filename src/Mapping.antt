-- ===== src/Mapping.antt =====
-- src/mapping: the loops and nests that a mapping consists of.
pub mod Loops
pub mod Arch
