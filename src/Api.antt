-- ===== src/Api.antt =====
-- pkg/k8s/apis/v1beta1: the objects that the controllers read and write. What the kubernetes
-- library adds to an object is kept as far as the controllers use it.
pub mod Phase
use Phase
use egressgateway.Prelude.{ℕ, String, ◌+◌, Bool, List, [], ◌∷◌, Option, ◌==◌, if◌then◌else◌}
use egressgateway.Prelude.Int.{ℤ}

-- metav1.ObjectMeta; `deleting` says that the deletion timestamp is set
pub record ObjectMeta : Type 0 where
  pub name : String
  pub namespace : String
  pub labels : List (String × String)
  pub finalizers : List String
  pub deleting : Bool

-- metav1.LabelSelector
pub record Requirement : Type 0 where
  pub key : String
  pub operator : String
  pub values : List String

pub record LabelSelector : Type 0 where
  pub match_labels : List (String × String)
  pub match_expressions : List Requirement

pub record Policy : Type 0 where
  pub name : String
  pub namespace : String

pub record Eips : Type 0 where
  pub ipv4 : String
  pub ipv6 : String
  pub policies : List Policy

pub record EgressIpStatus : Type 0 where
  pub name : String
  pub eips : List Eips
  pub status : String

pub record IpUsage : Type 0 where
  pub ipv4_total : ℤ
  pub ipv4_free : ℤ
  pub ipv6_total : ℤ
  pub ipv6_free : ℤ

pub record EgressGatewayStatus : Type 0 where
  pub node_list : List EgressIpStatus
  pub ip_usage : IpUsage

pub record Ippools : Type 0 where
  pub ipv4 : List String
  pub ipv6 : List String
  pub ipv4_default_eip : String
  pub ipv6_default_eip : String

pub record NodeSelector : Type 0 where
  pub policy : String
  pub selector : Option LabelSelector

pub record EgressGatewaySpec : Type 0 where
  pub cluster_default : Bool
  pub ippools : Ippools
  pub node_selector : NodeSelector

pub record EgressGateway : Type 0 where
  pub meta : ObjectMeta
  pub spec : EgressGatewaySpec
  pub status : EgressGatewayStatus

-- status.ReadyCount()
abbrev pub count_ready : ℕ → List EgressIpStatus → ℕ
count_ready res [] = res
count_ready res (node ∷ rest) =
    count_ready (if Phase.is_equal Phase.ready node.status then res + 1 else res) rest

abbrev pub ready_count : EgressGatewayStatus → ℕ
ready_count s = count_ready 0 s.node_list

-- status.GetNodeIPs(nodeName)
abbrev pub find_node_ips : String → List EgressIpStatus → List Eips
find_node_ips node_name [] = []
find_node_ips node_name (items ∷ rest) =
    if items.name == node_name then items.eips else find_node_ips node_name rest

abbrev pub get_node_ips : EgressGatewayStatus → String → List Eips
get_node_ips s node_name = find_node_ips node_name s.node_list

-- EgressPolicySpec and EgressClusterPolicySpec as far as the controllers of the gateway read them
pub record EgressIp : Type 0 where
  pub ipv4 : String
  pub ipv6 : String
  pub use_node_ip : Bool
  pub allocator_policy : String

-- EipAllocatorDefault, EipAllocatorRR
abbrev pub eip_allocator_default : String
eip_allocator_default = "default"

abbrev pub eip_allocator_rr : String
eip_allocator_rr = "rr"

pub record EgressPolicySpec : Type 0 where
  pub egress_gateway_name : String
  pub egress_ip : EgressIp

pub record Eip : Type 0 where
  pub ipv4 : String
  pub ipv6 : String

pub record EgressPolicyStatus : Type 0 where
  pub eip : Eip
  pub node : String

-- EgressPolicy, and EgressClusterPolicy, whose fields here are the same
pub record EgressPolicy : Type 0 where
  pub meta : ObjectMeta
  pub spec : EgressPolicySpec
  pub status : EgressPolicyStatus

pub record Parent : Type 0 where
  pub name : String
  pub ipv4 : String
  pub ipv6 : String

pub record Tunnel : Type 0 where
  pub ipv4 : String
  pub ipv6 : String
  pub mac : String
  pub parent : Parent

-- the mark is the list of its bytes, the time of the heartbeat a number of seconds
pub record EgressTunnelStatus : Type 0 where
  pub tunnel : Tunnel
  pub phase : String
  pub mark : List ℕ
  pub last_heartbeat_time : ℕ

pub record EgressTunnel : Type 0 where
  pub meta : ObjectMeta
  pub status : EgressTunnelStatus

-- corev1.NodeCondition and corev1.Node, as far as the controllers read them
pub record NodeCondition : Type 0 where
  pub type : String
  pub status : String

pub record Node : Type 0 where
  pub meta : ObjectMeta
  pub conditions : List NodeCondition
