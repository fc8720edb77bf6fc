-- ===== src/Numeric.antt =====
-- include/util/numeric.hpp and src/util/numeric.cpp: counters, factors, permutations.
pub mod Counter
pub mod Factors
pub mod Factoradic
pub mod Generators
pub mod Tiling
pub mod FindBounds
