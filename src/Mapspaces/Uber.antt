-- ===== src/Mapspaces/Uber.antt =====
-- The Uber mapspace (src/mapspaces/uber.cpp, include/mapspaces/uber.hpp): the product of the
-- subspaces, and the mapping that an id stands for.
pub mod Bypass
pub mod Splitting
pub mod Assign
pub mod Construct
pub mod Pruning
pub mod Init
