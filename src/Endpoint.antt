-- ===== src/Endpoint.antt =====
-- pkg/controller/endpoint: the controllers that list the pods of each policy in endpoint slices.
pub mod Objects
pub mod Pods
pub mod Slices
pub mod Sync
pub mod Events
pub mod Fill
pub mod Chunks
pub mod Tally
pub mod Shares
pub mod Agree
pub mod Idle
