-- ===== src/Utils.antt =====
-- Small helpers of pkg/utils.
pub mod Slices
pub mod Counts
