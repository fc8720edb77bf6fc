-- ===== src/Lib.antt =====
-- Timeloop: models of its core algorithms, and what is shown of them.
--
-- Timeloop maps tensor workloads to accelerators. A mapspace is a product of subspaces: the
-- factorizations of the loop bounds, the orders of the loops at each level, the splits of the spatial
-- levels and the bypasses of the levels. A search hands out mapping IDs, digits of a mixed-radix
-- counter, one for each subspace; the mapspace makes a mapping of an ID; the loop analysis computes
-- the sets of points that the tiles of a mapping touch and how they change; and a client, the
-- mapper, reports to the search whether the mapping could be constructed and evaluated.
--
-- Prelude: the names that all files share. Tests has Boolean tests on native numbers, Lists has lists
-- measured by them, Errors the failure of an operation (`none` is a failed assertion, an exception,
-- or a read out of range), Words the unsigned machine words, which wrap, and the checked 128-bit
-- number, which throws, and Int signed integers.
--
-- Numeric (include/util/numeric.hpp, src/util/numeric.cpp):
--   Counter: CartesianCounterDynamic, a record of its order, bases, digits, integer and end. `init`,
--     `increment`, `set_integer`, `set_digit` and `set_value` are the constructor, Increment and the
--     three Sets. CartesianCounter<order> repeats its text over an array; it is the ID of a mapping.
--   Factors: the constructors (`init`, `init_given`), PruneMax and PruneMin, with ISqrt_,
--     CalculateAllFactors_ and MultiplicativeSplitRecursive_.
--   Factoradic: the factorial table, Factorial and Permute, on the part of the buffer that is left.
--   Generators: SequenceGenerator128 and RandomGenerator128, with the draws of the random engine as
--     arguments.
--   Tiling: SmallestFactor and GetTiling. FindBounds: FindBounds on the ascending keys of a map.
--
-- Mapspaces (include/mapspaces/subspaces.hpp, src/mapspaces/subspaces.cpp):
--   Factorizations: IndexFactorizationSpace, over the models of Factors and of the counter. `init`,
--     `get_factor` and `size_of` are Init, GetFactor and Size.
--   Permutations: PermutationSpace. `init_level`, `get_patterns` and `size_of` are InitLevel,
--     GetPatterns and Size; a map from levels is a function to an option.
--   Splits: SpatialSplitSpace. `init_level`, `init_level_user_specified`, `get_splits` and `size_of`.
--   Uber (include/mapspaces/uber.hpp, src/mapspaces/uber.cpp): the mapspace over these subspaces.
--     Bypass is its bypass space (`init_bypass`, `construct_bypass`), Splitting the sizes with the
--     check for overflow, Split and the global index factorization ids, Assign AssignIndexFactors,
--     Construct is the state (`Uber`), IsSplit and Split (`is_split`, `split_uber`) and
--     ConstructMapping with its other stages, Pruning has the set-up of the permutation and the split
--     space from the constraints, and InitPruned, and Init has InitIndexFactorizationSpace and Init.
--     A factor of the user's is -1 or not negative. The bitsets of a mask nest are a function of the
--     data space and the level. Whether the utilization is too low is a parameter, since it is
--     computed in doubles, and the texts of a status are left out.
--
-- Mapping (include/mapping, src/mapping): Loops has loop::Descriptor and the operations that build a
-- loop::Nest; Arch is ArchProperties, from the meshes of the levels.
--
-- Search (include/search, src/search): Search.antt has the dimensions and the sizes of a mapspace
-- (include/mapspaces/mapspace-base.hpp), Exhaustive is ExhaustiveSearch and LinearPruned is
-- LinearPrunedSearch, each with `next` for Next and `report` for Report. `report` is composed of its
-- parts in the order of the code: the count of the status, the end of the bypasses, the skip of the
-- bypasses, the increment, and the state. A client that knows the outcome of each ID drives them
-- (`explore`). The mapspace of a search is the array of its sizes, and for the pruned search a
-- function from a factorization to the sizes after InitPruned; costs are a parameter.
--
-- PointSet (include/loop-analysis/point-set-aahr.hpp, src/loop-analysis/point-set-aahr.cpp): Aahr is
-- AxisAlignedHyperRectangle, with the two coordinates of a rank side by side. `add`, `subtract`,
-- `minus`, `multi_subtract`, `contains`, `merge_if_adjacent`, `translate` and `get_translation` are
-- its operations; `inside` is its set of points.
--
-- Machine words: the integers of Counter and the sizes of the spaces are 128-bit numbers, lengths and
-- counts 64-bit numbers, and the arguments of ISqrt_ are below 2 ^ 64; the wrap-around is written
-- out where the code can reach it. Coordinates are taken where their sums do not overflow. Quotients
-- of doubles that are rounded up are taken where they are exact, below 2 ^ 53. A factor or an index of
-- rows that an `int` does not hold is left out; the check of AssignIndexFactors wraps at 32 bits.
--
-- Fuel: the loops of ISqrt_, SmallestFactor and GetTiling run on fuel from their arguments, which
-- their rounds lower. `explore` takes the number of rounds: each goes to a later place of the
-- mapspace, so one for each place, and one more that finds the search terminated, are enough.
--
-- Not modelled: the parsing of configurations, input and output; the energy and area models, which
-- compute on doubles; the analyses that are calls of isl and barvinok; how the constraints are read;
-- the Ruby mapspace with ResidualFactors; the nest analysis and tiling
-- passes, the sparse analysis and the workload classes; the random and the hybrid searches.
pub mod Prelude
pub mod Mapping
pub mod Mapspaces
pub mod Numeric
pub mod PointSet
pub mod Search
