-- ===== src/ClusterInfo.antt =====
-- pkg/controller/clusterinfo: the controller that collects the addresses of the cluster.
pub mod Objects
pub mod Cidrs
pub mod Info
pub mod Settled
