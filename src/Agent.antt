-- ===== src/Agent.antt =====
-- pkg/agent: the agent of a node.
pub mod Rules
pub mod Names
pub mod World
pub mod Sets
pub mod PolicySets
pub mod ClusterCidrs
pub mod Held
pub mod Exact
pub mod ClusterSets
pub mod Synced
pub mod Pending
pub mod Diffs
pub mod Distinct
pub mod PolicyExact
pub mod Readings
pub mod Kept
pub mod Apply
pub mod Police
pub mod Routes
pub mod RuleCounts
pub mod RouteRules
pub mod Purged
pub mod Peers
pub mod Vxlan
pub mod PeerMaps
