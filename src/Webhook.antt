-- ===== src/Webhook.antt =====
-- The admission webhooks: pkg/egressgateway/egress_gateway_webhook.go and pkg/controller/webhook.
pub mod Requests
pub mod GatewayChecks
pub mod PolicyChecks
pub mod ClusterChecks
pub mod Defaults
pub mod Accepted
pub mod SameVerdict
pub mod Pools
pub mod Disjoint
pub mod Hooks
pub mod Drawn
