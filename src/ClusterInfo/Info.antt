-- ===== src/ClusterInfo/Info.antt =====
-- pkg/controller/clusterinfo/clusterinfo.go.
use egressgateway.Prelude.{
  none, some, true, false, ok, err, panic, no_fuel, zero, suc, String, Option, Bool, List,
  if◌then◌else◌, ◌∷◌, not, Result, ℕ, ◌==◌, ◌||◌, ◌&&◌, [],
}
use egressgateway.Controller.Flow.{◌>>>◌, ◌>>=◌, Exec, is_not_found, pure, M, or_fail, lift, stop}
use egressgateway.ClusterInfo.Objects.{
  EgressClusterInfo, InfoClient, EgressClusterInfoSpec, IpListPair, EgressClusterInfoStatus,
  AddressedNode, IpPool, InfoWorld,
}
use egressgateway.ClusterInfo.Cidrs.{get_node_ip_list, get_calico_ip_pool_list, get_cluster_cidr}
use egressgateway.Ip.Text.{NetText}
use egressgateway.Utils.Slices.{NodeAddress, equal_string_slice}
use egressgateway.Gateway.Nodes.{Request}
use egressgateway.Controller.Dispatch.{parse_kind_with_req}

-- defaultName
abbrev pub default_name : String
default_name = "default"

-- a map's entry of a key, without it, and with another
unfoldable pub lookup : String → List (String × IpListPair) → Option IpListPair
lookup key [] = none
lookup key (e ∷ es) = let rest = lookup key es in if e.0 == key then some e.1 else rest

unfoldable pub remove_key : String → List (String × IpListPair) → List (String × IpListPair)
remove_key key [] = []
remove_key key (e ∷ es) = let rest = remove_key key es in if e.0 == key then rest else e ∷ rest

abbrev pub set_key : String → IpListPair → List (String × IpListPair) → List (String × IpListPair)
set_key key pair es = (key, pair) ∷ remove_key key es

-- whether a pair is to be written over the old one
unfoldable pub differs : Option IpListPair → IpListPair → Bool
differs none pair = true
differs (some val) pair =
    not (equal_string_slice val.ipv4 pair.ipv4) || not (equal_string_slice val.ipv6 pair.ipv6)

abbrev pub with_status : EgressClusterInfo → EgressClusterInfoStatus → EgressClusterInfo
with_status info status = record info { status = status }

-- fmt.Errorf("failed to update EgressClusterInfo …: %w", err) keeps the error
module _ {S : Type 0} (client : InfoClient S) (t : NetText) where
  abbrev pub pair_of : List String × List String → IpListPair
  pair_of lists = record { ipv4 = lists.0; ipv6 = lists.1 }

  -- a Get whose object may be missing
  abbrev pub or_missing : {A : Type 0} → Result A × S → Result (Option A) × S
  or_missing (ok a, s) = (ok (some a), s)
  or_missing (err e, s) = if is_not_found e then (ok none, s) else (err e, s)
  or_missing (panic, s) = (panic, s)
  or_missing (no_fuel, s) = (no_fuel, s)

  -- the entries after an event of the key: those without it, or with its new pair; none where they
  -- stay as they are
  unfoldable pub new_entries :
      String → Option IpListPair → List (String × IpListPair) → Option (List (String × IpListPair))
  unfolding lookup remove_key differs
  new_entries key none es = elim (lookup key es) [
    | none ↦ none
    | some old ↦ some (remove_key key es)
  ]
  new_entries key (some pair) es =
      if differs (lookup key es) pair then some (set_key key pair es) else none

  abbrev pub write_entries :
      (List (String × IpListPair) → EgressClusterInfo)
      → Option (List (String × IpListPair))
      → Exec S (Unit {0})
  write_entries to_info none = pure tt
  write_entries to_info (some es) = client.update_info_status (to_info es)

  abbrev pub set_node_ip : EgressClusterInfo → List (String × IpListPair) → EgressClusterInfo
  set_node_ip info es = with_status info (record (info.status) { node_ip = es })

  abbrev pub set_pod_cidr : EgressClusterInfo → List (String × IpListPair) → EgressClusterInfo
  set_pod_cidr info es = with_status info (record (info.status) { pod_cidr = es })

  -- the pair of a node, or of a pool, that is there and is not being deleted
  abbrev pub node_pair : Option AddressedNode → Option IpListPair
  node_pair none = none
  node_pair (some node) =
      if node.meta.deleting then none else some (pair_of (get_node_ip_list t node.addresses))

  abbrev pub pool_pair : Option IpPool → Option IpListPair
  pool_pair none = none
  pool_pair (some pool) =
      if pool.meta.deleting then none else some (pair_of (get_calico_ip_pool_list t pool))

  -- reconcileNode
  unfoldable pub reconcile_node : String → Exec S (Unit {0})
  unfolding get_node_ip_list new_entries
  reconcile_node name = (λ s. or_missing (client.get_info default_name s)) >>> λ found. elim found [
    | none ↦ pure tt
    | some info ↦
        if info.spec.auto_detect.node_ip
        then ((λ s. or_missing (client.get_node name s)) >>> λ node.
            write_entries (set_node_ip info)
              (new_entries name (node_pair node) info.status.node_ip))
        else pure tt
  ]

  -- reconcileCalicoIPPool
  unfoldable pub reconcile_calico_ip_pool : String → Exec S (Unit {0})
  unfolding get_calico_ip_pool_list new_entries
  reconcile_calico_ip_pool name = (λ s. or_missing (client.get_info default_name s)) >>> λ found.
      elim found [
        | none ↦ pure tt
        | some info ↦
            if info.spec.auto_detect.pod_cidr_mode == "calico"
              || info.spec.auto_detect.pod_cidr_mode == "auto"
            then ((λ s. or_missing (client.get_ip_pool name s)) >>> λ pool.
                write_entries (set_pod_cidr info)
                  (new_entries name (pool_pair pool) info.status.pod_cidr))
            else pure tt
      ]

  -- updateK8sServiceCIDR
  unfoldable pub update_k8s_service_cidr : Exec S (Unit {0})
  unfolding get_cluster_cidr differs
  update_k8s_service_cidr = client.get_info default_name >>> λ info.
      if info.spec.auto_detect.cluster_ip
      then (get_cluster_cidr client t >>> λ lists.
          if differs info.status.cluster_ip (pair_of lists)
          then client.update_info_status
              (with_status info (record (info.status) { cluster_ip = some (pair_of lists) }))
          else pure tt)
      else pure tt

  -- the writes of reconcileInfo
  unfoldable pub update_extra_cidr : EgressClusterInfo → Exec S (Unit {0})
  update_extra_cidr info =
      if equal_string_slice info.spec.extra_cidr info.status.extra_cidr
      then pure tt
      else client.update_info_status
          (with_status info (record (info.status) { extra_cidr = info.spec.extra_cidr }))

  abbrev pub at_server : {X : Type 0} → Exec S X → Exec (InfoWorld S) X
  at_server m w = let r = m w.server in (r.0, record w { server = r.1 })

  -- r.watchOnce.Do(r.watchCalico)
  abbrev pub watch_once : (S → S) → InfoWorld S → InfoWorld S
  watch_once watch_calico w =
      if w.watched then w else record w { watched = true; server = watch_calico w.server }

  -- reconcileInfo
  unfoldable pub reconcile_info : (S → S) → String → Exec (InfoWorld S) (Unit {0})
  unfolding update_extra_cidr
  reconcile_info watch_calico name =
      at_server (λ s. or_missing (client.get_info name s)) >>> λ found w. elim found [
        | none ↦ (ok tt, w)
        | some info ↦
            if info.meta.deleting
            then (ok tt, w)
            else at_server (update_extra_cidr info) (
                if info.spec.auto_detect.pod_cidr_mode == "auto"
                  || info.spec.auto_detect.pod_cidr_mode == "calico"
                then watch_once watch_calico w
                else w)
      ]

  abbrev pub retried :
      Result (Unit {0}) × InfoWorld S
      → Exec (InfoWorld S) (Unit {0})
      → Result (Unit {0}) × InfoWorld S
  retried (err e, w) again = again w
  retried (r, w) again = (r, w)

  -- the loop of doOnce, which tries until it succeeds
  unfoldable pub init_loop : ℕ → Exec (InfoWorld S) (Unit {0})
  unfolding update_k8s_service_cidr
  init_loop zero w = (no_fuel, w)
  init_loop (suc fuel) w =
      let again = init_loop fuel in retried (at_server update_k8s_service_cidr w) again

  unfoldable pub do_once : ℕ → Exec (InfoWorld S) (Unit {0})
  unfolding init_loop
  do_once fuel w =
      if w.done
      then (ok tt, w)
      else (init_loop fuel >>> λ _ w'. (ok tt, record w' { done = true })) w

  -- the switch of Reconcile
  unfoldable pub reconcile_kind : (S → S) → String → String → Exec (InfoWorld S) (Unit {0})
  unfolding reconcile_node reconcile_calico_ip_pool reconcile_info
  reconcile_kind watch_calico kind name =
      if kind == "Node"
      then at_server (reconcile_node name)
      else if kind == "CalicoIPPool"
      then at_server (reconcile_calico_ip_pool name)
      else if kind == "EgressClusterInfo"
      then reconcile_info watch_calico name
      else pure tt

  -- Reconcile; an error of the switch asks for a requeue
  unfoldable pub reconcile : ℕ → (S → S) → Request → M (InfoWorld S) (Unit {0})
  unfolding do_once reconcile_kind
  reconcile fuel watch_calico req = or_fail false (do_once fuel) >>= λ _.
      or_fail false (lift (parse_kind_with_req req)) >>= λ parsed.
      or_fail true (reconcile_kind watch_calico parsed.0 parsed.1.name) >>= λ _. stop false

-- nodePredicate and infoPredicate on updates
unfoldable pub node_updated : NetText → List NodeAddress → List NodeAddress → Bool
unfolding get_node_ip_list
node_updated t old new =
    let o = get_node_ip_list t old in
    let n = get_node_ip_list t new in not (equal_string_slice o.0 n.0 && equal_string_slice o.1 n.1)

abbrev pub same_flag : Bool → Bool → Bool
same_flag a b = if a then b else not b

unfoldable pub info_updated : EgressClusterInfoSpec → EgressClusterInfoSpec → Bool
info_updated old new =
    let a = old.auto_detect in
    let b = new.auto_detect in
    if a.pod_cidr_mode == b.pod_cidr_mode
      && (same_flag a.cluster_ip b.cluster_ip && same_flag a.node_ip b.node_ip)
    then not (equal_string_slice old.extra_cidr new.extra_cidr)
    else true
