-- ===== src/Tests.antt =====
-- Concrete inputs for the theorems, and the theorems at them.
mod Clusters
mod Allocators
mod Texts
mod GatewayRuns
mod PoolRuns
mod ControllerRuns
mod MarkRuns
mod TunnelRuns
mod EndpointRuns
mod WebhookRuns
mod UtilRuns
mod InfoRuns
mod RouteRuns
mod VxlanRuns
mod AgentSets
mod AgentRuns
