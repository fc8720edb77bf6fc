-- ===== src/PointSet.antt =====
-- src/loop-analysis: the sets of points that a tile touches, as axis-aligned hyper-rectangles.
pub mod Aahr
