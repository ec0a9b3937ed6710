-- ===== src/Agent/World.antt =====
-- What the reconciler of pkg/agent/police.go holds and calls.
use egressgateway.Prelude.{
  ℕ, String, Bool, List, [], ◌∷◌, Option, none, some, ◌==◌, if◌then◌else◌, Error, Result, ok, err,
  panic, no_fuel,
}
use egressgateway.Api.{EgressGateway, EgressTunnel, LabelSelector, Policy}
use egressgateway.Ip.Address.{IpNet}
use egressgateway.Ip.Text.{NetText}
use egressgateway.MarkAllocator.Text.{Bytes}
use egressgateway.Controller.Flow.{Exec, is_not_found}
use egressgateway.Endpoint.Objects.{EgressEndpointSlice, Labels}
use egressgateway.Webhook.PolicyChecks.{PolicyObject}
use egressgateway.ClusterInfo.Objects.{EgressClusterInfo, IpListPair}
use egressgateway.Agent.Rules.{Rule, ChainRules, PolicyIp}

-- ipset.IPSet of the type HashNet and without a comment
pub record IpSet : Type 0 where
  pub name : String
  pub hash_family : String

-- config.Config, as far as the reconciler reads it
pub record PoliceConfig : Type 0 where
  pub node_name : String
  pub enable_ipv4 : Bool
  pub enable_ipv6 : Bool
  pub mark : Bytes
  pub enable_gateway_reply_route : Bool
  pub gateway_reply_route_mark : ℕ
  pub vxlan_name : String

pub record PolicyCommon : Type 0 where
  pub node_name : String
  pub dest_subnet : List String
  pub ip : PolicyIp
  pub use_node_ip : Bool

-- a map from policies
abbrev pub PolicyMap : Type 0
PolicyMap = List (Policy × PolicyCommon)

-- client.Client
pub record PoliceClient (S : Type 0) : Type 0 where
  pub list_gateways : Exec S (List EgressGateway)
  pub get_gateway : String → Exec S EgressGateway
  -- by namespace and name
  pub get_policy : String → String → Exec S PolicyObject
  pub get_cluster_policy : String → String → Exec S PolicyObject
  pub get_tunnel : String → Exec S EgressTunnel
  pub list_tunnels : Exec S (List EgressTunnel)
  pub get_info : String → Exec S EgressClusterInfo
  -- in a namespace, and of cluster policies, with the selector's test of the labels
  pub list_slices : String → (Labels → Bool) → Exec S (List EgressEndpointSlice)
  pub list_cluster_slices : (Labels → Bool) → Exec S (List EgressEndpointSlice)

-- ipset.Interface of pkg/ipset, where sets and entries that are there already are no errors, and
-- whether an error is ErrAlreadyAddedEntry
pub record IpsetClient (S : Type 0) : Type 0 where
  pub create_set : IpSet → Exec S (Unit {0})
  pub list_entries : String → Exec S (List String)
  pub add_entry : String → IpSet → Exec S (Unit {0})
  pub del_entry : String → String → Exec S (Unit {0})
  pub destroy_set : String → Exec S (Unit {0})
  pub list_sets : Exec S (List String)
  pub is_already_added : Error → Bool

-- iptables.Table of pkg/iptables: its name and version, and its methods
pub record Table : Type 0 where
  pub name : String
  pub ip_version : ℕ

pub record TableClient (S : Type 0) : Type 0 where
  pub update_chain : Table → String → List Rule → S → S
  pub insert_or_append_rules : Table → String → List Rule → S → S
  pub apply : Table → Exec S (Unit {0})

-- the order in which `range` visits the entries of a map
pub record MapOrder : Type 0 where
  pub range_policies : PolicyMap → PolicyMap
  pub range_texts : List String → List String
  pub range_ips : List (String × List String) → List (String × List String)
  pub range_chains : ChainRules → ChainRules
  pub range_pairs : List (String × IpListPair) → List (String × IpListPair)

-- policeReconciler, without what changes; net_string is the method String of net.IPNet, sha1 gives
-- the hash in hexadecimal digits, and as_selector is LabelSelectorAsSelector of metav1
pub record Env (S : Type 0) : Type 0 where
  pub cfg : PoliceConfig
  pub client : PoliceClient S
  pub ipset : IpsetClient S
  pub tables : TableClient S
  pub filter_tables : List Table
  pub mangle_tables : List Table
  pub nat_tables : List Table
  pub order : MapOrder
  pub text : NetText
  pub net_string : IpNet → String
  pub sha1 : String → String
  pub as_selector : Option LabelSelector → Result (Labels → Bool)

-- its maps, whether doOnce is done, and the state of the server and of the node
pub record World (S : Type 0) : Type 0 where
  pub ipset_map : List IpSet
  pub done : Bool
  pub server : S

abbrev pub at_server : {S X : Type 0} → Exec S X → Exec (World S) X
at_server m w = let r = m w.server in (r.0, record w { server = r.1 })

abbrev pub change_server : {S : Type 0} → (S → S) → World S → World S
change_server f w = record w { server = f w.server }

-- ipsetMap.Load, Store and Delete
unfoldable pub load_set : String → List IpSet → Option IpSet
load_set name [] = none
load_set name (set ∷ sets) =
    let rest = load_set name sets in if set.name == name then some set else rest

unfoldable pub delete_set : String → List IpSet → List IpSet
delete_set name [] = []
delete_set name (set ∷ sets) =
    let rest = delete_set name sets in if set.name == name then rest else set ∷ rest

abbrev pub store_set : IpSet → List IpSet → List IpSet
store_set set sets = set ∷ delete_set set.name sets

-- a Get whose object may be missing
abbrev pub or_missing : {S A : Type 0} → Result A × S → Result (Option A) × S
or_missing (ok a, s) = (ok (some a), s)
or_missing (err e, s) = if is_not_found e then (ok none, s) else (err e, s)
or_missing (panic, s) = (panic, s)
or_missing (no_fuel, s) = (no_fuel, s)

-- an error that is only logged
abbrev pub or_logged : {S A : Type 0} → Result A × S → Result (Option A) × S
or_logged (ok a, s) = (ok (some a), s)
or_logged (err e, s) = (ok none, s)
or_logged (panic, s) = (panic, s)
or_logged (no_fuel, s) = (no_fuel, s)
