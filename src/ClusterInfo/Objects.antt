-- ===== src/ClusterInfo/Objects.antt =====
-- pkg/k8s/apis/v1beta1/egressclusterinfo_types.go, the other objects that the controller of
-- pkg/controller/clusterinfo reads, and the client it calls.
use egressgateway.Prelude.{List, String, Bool, Option}
use egressgateway.Api.{ObjectMeta}
use egressgateway.Utils.Slices.{NodeAddress}
use egressgateway.Controller.Flow.{Exec}

pub record IpListPair : Type 0 where
  pub ipv4 : List String
  pub ipv6 : List String

pub record AutoDetect : Type 0 where
  pub pod_cidr_mode : String
  pub cluster_ip : Bool
  pub node_ip : Bool

pub record EgressClusterInfoSpec : Type 0 where
  pub auto_detect : AutoDetect
  pub extra_cidr : List String

-- a map is a list of its entries
pub record EgressClusterInfoStatus : Type 0 where
  pub node_ip : List (String × IpListPair)
  pub cluster_ip : Option IpListPair
  pub pod_cidr : List (String × IpListPair)
  pub extra_cidr : List String

pub record EgressClusterInfo : Type 0 where
  pub meta : ObjectMeta
  pub spec : EgressClusterInfoSpec
  pub status : EgressClusterInfoStatus

-- corev1.Node with its addresses
pub record AddressedNode : Type 0 where
  pub meta : ObjectMeta
  pub addresses : List NodeAddress

-- calicov1.IPPool
pub record IpPool : Type 0 where
  pub meta : ObjectMeta
  pub cidr : String

-- the command and the arguments of each container of a pod
pub record Container : Type 0 where
  pub command : List String
  pub args : List String

pub record InfoClient (S : Type 0) : Type 0 where
  pub get_info : String → Exec S EgressClusterInfo
  pub get_node : String → Exec S AddressedNode
  pub get_ip_pool : String → Exec S IpPool
  pub update_info_status : EgressClusterInfo → Exec S (Unit {0})
  -- the containers of the pods that have a label
  pub list_pods : String → String → Exec S (List (List Container))

-- clusterInfo: whether doOnce and watchOnce are done, and the state of the server
pub record InfoWorld (S : Type 0) : Type 0 where
  pub done : Bool
  pub watched : Bool
  pub server : S
