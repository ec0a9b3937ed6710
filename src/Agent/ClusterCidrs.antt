-- ===== src/Agent/ClusterCidrs.antt =====
-- ensureClusterInfoIPSet and reconcileClusterInfo of pkg/agent/police.go.
use egressgateway.Prelude.{
  String, true, false, if◌then◌else◌, List, [], ◌∷◌, ◌++◌, Option, none, some,
}
use egressgateway.Prelude.Sort.{sort_strings}
use egressgateway.Ip.Address.{Ip, IpNet, nil, v4, v6}
use egressgateway.Ip.Range.{add_mark, delete_mark}
use egressgateway.Gateway.Nodes.{Request}
use egressgateway.Controller.Flow.{Exec, ◌>>>◌, each, M, ◌>>=◌, or_fail, or_not_found, stop}
use egressgateway.ClusterInfo.Objects.{EgressClusterInfo, EgressClusterInfoStatus, IpListPair}
use egressgateway.Agent.Rules.{egress_cluster_cidr_ipv4, egress_cluster_cidr_ipv6}
use egressgateway.Agent.World.{Env, IpSet}

-- the two lists of reconcileClusterInfo
abbrev pub Lists : Type 0
Lists = List String × List String

abbrev pub add_text : Ip → String → Lists → Lists
add_text nil text lists = lists
add_text (v4 n) text lists = (lists.0 ++ text ∷ [], lists.1)
add_text (v6 n) text lists = (lists.0, lists.1 ++ text ∷ [])

-- sets.NewString, and the loop that deletes the keys of a list from a set
unfoldable pub set_of : List String → List String
unfolding add_mark
set_of [] = []
set_of (s ∷ ss) = add_mark s (set_of ss)

unfoldable pub delete_all : List String → List String → List String
unfolding delete_mark
delete_all [] set = set
delete_all (key ∷ keys) set = delete_all keys (delete_mark key set)

abbrev pub cluster_set_v4 : IpSet
cluster_set_v4 = record { name = egress_cluster_cidr_ipv4; hash_family = "inet" }

abbrev pub cluster_set_v6 : IpSet
cluster_set_v6 = record { name = egress_cluster_cidr_ipv6; hash_family = "inet6" }

module _ {S : Type 0} (env : Env S) where
  -- ensureClusterInfoIPSet
  unfoldable pub ensure_cluster_info_ip_set : Exec S (Unit {0})
  ensure_cluster_info_ip_set =
      env.ipset.create_set cluster_set_v4 >>> λ _. env.ipset.create_set cluster_set_v6

  -- addIP
  unfoldable pub add_ip : List String → Lists → Lists
  add_ip [] lists = lists
  add_ip (item ∷ items) lists =
      let ip = env.text.parse_ip item in add_ip items (add_text ip (env.text.ip_string ip) lists)

  -- addCIDR
  abbrev pub add_parsed : Option (Ip × IpNet) → Lists → Lists
  add_parsed none lists = lists
  add_parsed (some p) lists = add_text p.0 (env.net_string p.1) lists

  unfoldable pub add_cidr : List String → Lists → Lists
  add_cidr [] lists = lists
  add_cidr (item ∷ items) lists = add_cidr items (add_parsed (env.text.parse_cidr item) lists)

  -- the addresses of each version of the entries of a map
  unfoldable pub pairs_v4 : List (String × IpListPair) → List String
  pairs_v4 [] = []
  pairs_v4 (e ∷ es) = e.1.ipv4 ++ pairs_v4 es

  unfoldable pub pairs_v6 : List (String × IpListPair) → List String
  pairs_v6 [] = []
  pairs_v6 (e ∷ es) = e.1.ipv6 ++ pairs_v6 es

  abbrev pub add_cluster_ip : Option IpListPair → Lists → Lists
  add_cluster_ip none lists = lists
  add_cluster_ip (some pair) lists = add_cidr pair.ipv6 (add_cidr pair.ipv4 lists)

  -- what the sets of the cluster's addresses are to hold
  unfoldable pub cluster_lists : EgressClusterInfoStatus → Lists
  unfolding add_ip add_cidr pairs_v4 pairs_v6
  cluster_lists status =
      let nodes = env.order.range_pairs status.node_ip in
      let pools = env.order.range_pairs status.pod_cidr in
      let with_nodes = add_ip (pairs_v6 nodes) (add_ip (pairs_v4 nodes) ([], [])) in
      let with_pools = add_cidr (pairs_v6 pools) (add_cidr (pairs_v4 pools) with_nodes) in
      add_cidr status.extra_cidr (add_cluster_ip status.cluster_ip with_pools)

  -- process, with the calls for the set
  unfoldable pub process : IpSet → List String → List String → Exec S (Unit {0})
  unfolding set_of delete_all each sort_strings
  process set got_list exp_list =
      each (λ item. env.ipset.add_entry item set)
        (sort_strings (delete_all got_list (set_of exp_list)))
      >>> λ _.
          each (λ item. env.ipset.del_entry item set.name)
            (sort_strings (delete_all exp_list (set_of got_list)))

  -- reconcileClusterInfo
  abbrev pub sync_info : EgressClusterInfo → M S (Unit {0})
  sync_info info =
      let lists = cluster_lists info.status in
      or_fail false ensure_cluster_info_ip_set >>= λ _.
      or_fail false (env.ipset.list_entries egress_cluster_cidr_ipv4) >>= λ got_v4.
      or_fail false (env.ipset.list_entries egress_cluster_cidr_ipv6) >>= λ got_v6.
      or_fail true (process cluster_set_v4 got_v4 lists.0) >>= λ _.
      or_fail true (process cluster_set_v6 got_v6 lists.1) >>= λ _. stop false

  unfoldable pub reconcile_cluster_info : Request → M S (Unit {0})
  unfolding ensure_cluster_info_ip_set cluster_lists process
  reconcile_cluster_info req = or_not_found false (env.client.get_info req.name) >>= λ found.
      elim found [
        | none ↦ stop false
        | some info ↦ if info.meta.deleting then stop false else sync_info info
      ]
