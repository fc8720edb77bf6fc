-- ===== src/Mapspaces.antt =====
-- src/mapspaces: the subspaces that a mapspace is the product of (src/mapspaces/subspaces.cpp).
pub mod Factorizations
pub mod Permutations
pub mod Splits
pub mod Uber
