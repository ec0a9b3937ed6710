-- ===== src/MarkAllocator.antt =====
-- pkg/markallocator: packet marks, handed out from a range.
pub mod Text
pub mod Digits
pub mod Bounds
pub mod Range
pub mod Holding
pub mod New
