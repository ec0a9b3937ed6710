-- ===== src/Tunnel.antt =====
-- pkg/controller/tunnel: the controller that gives each node's tunnel its mark and its addresses.
pub mod World
pub mod Update
pub mod Keep
pub mod Release
pub mod Rebuild
pub mod Reconcile
pub mod Health
pub mod Phases
pub mod Leaks
pub mod Marks
pub mod Rewrites
