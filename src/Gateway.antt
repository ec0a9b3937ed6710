-- ===== src/Gateway.antt =====
-- pkg/egressgateway: the controller that hands out egress IPs and keeps each gateway's status.
pub mod Lookup
pub mod Nodes
pub mod Choose
pub mod Pool
pub mod Assign
pub mod Move
pub mod Usage
pub mod Steps
pub mod Frame
pub mod Recorded
pub mod Shared
pub mod Least
pub mod Counts
pub mod Target
pub mod Fresh
pub mod Unused
