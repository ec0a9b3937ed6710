-- ===== src/Controller.antt =====
-- pkg/egressgateway: the reconcile loops over the API server.
pub mod Flow
pub mod Client
pub mod Status
pub mod Policy
pub mod Reassign
pub mod Nodes
pub mod GatewaySync
pub mod SyncEnds
pub mod Lost
pub mod Records
pub mod Dispatch
