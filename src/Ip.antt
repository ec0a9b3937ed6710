-- ===== src/Ip.antt =====
-- pkg/utils/ip
pub mod Address
pub mod Text
pub mod Families
pub mod Range
pub mod Cidr
pub mod Merge
pub mod Diff
pub mod Enumerate
