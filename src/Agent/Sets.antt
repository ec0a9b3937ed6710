-- ===== src/Agent/Sets.antt =====
-- What stands in the sets of a policy, of pkg/agent/police.go.
use egressgateway.Prelude.{
  String, Bool, ◌==◌, if◌then◌else◌, List, [], ◌∷◌, ◌++◌, map, Option, none, some, Result, ok, err,
  invalid_cidr, ◌>>=◌,
}
use egressgateway.Ip.Address.{Ip, IpNet, nil, v4, v6}
use egressgateway.Ip.Range.{has_mark}
use egressgateway.Tunnel.Release.{is_to16}
use egressgateway.Controller.Flow.{Exec, ◌>>>◌, lift, pure}
use egressgateway.Endpoint.Objects.{EgressEndpoint, EgressEndpointSlice}
use egressgateway.Endpoint.Sync.{label_policy_name}
use egressgateway.Agent.World.{Env}

-- strings.HasSuffix with strings.TrimSuffix: the text without the suffix
unfoldable pub strip_suffix : String → String → Option String
strip_suffix suffix String.[] = if suffix == "" then some "" else none
strip_suffix suffix (String.◌∷◌ c s) =
    let rest = strip_suffix suffix s in
    if String.◌∷◌ c s == suffix
    then some ""
    else elim rest [ none ↦ none | some t ↦ some (String.◌∷◌ c t) ]

-- the texts that do not stand in the other list
unfoldable pub missing_in : List String → List String → List String
missing_in others [] = []
missing_in others (s ∷ ss) =
    let rest = missing_in others ss in if has_mark s others then rest else s ∷ rest

-- expandAnyCIDR; the map that it ranges over is in the order of the list
unfoldable pub put_text : String → List String → List String
put_text s ss = if has_mark s ss then ss else ss ++ s ∷ []

unfoldable pub put_texts : List String → List String → List String
unfolding put_text
put_texts set [] = set
put_texts set (ip ∷ ips) =
    put_texts
      (if ip == "0.0.0.0/0"
        then put_text "128.0.0.0/1" (put_text "0.0.0.0/1" set)
        else put_text ip set)
      ips

module _ {S : Type 0} (env : Env S) where
  abbrev pub expand_any_cidr : List String → List String
  expand_any_cidr ips = env.order.range_texts (put_texts [] ips)

  -- an entry as ipset lists it
  unfoldable pub listed : String → String
  unfolding strip_suffix
  listed s = elim (strip_suffix "/32" s) [
    | some t ↦ t
    | none ↦ elim (strip_suffix "/128" s) [
      | some t ↦
          if is_to16 (env.text.parse_ip t) then env.text.ip_string (env.text.parse_ip t) else s
      | none ↦ elim (env.text.parse_cidr s) [ some p ↦ env.net_string p.1 | none ↦ s ]
    ]
  ]

  -- findDiff: what to add, and what to delete
  unfoldable pub find_diff : List String → List String → List String × List String
  unfolding listed missing_in
  find_diff old_list new_list =
      let new_copy = map listed new_list in
      (missing_in old_list new_copy, missing_in new_copy old_list)

  -- getDstCIDR
  abbrev pub add_net : Ip × IpNet → List String × List String → List String × List String
  add_net (nil, net) lists = lists
  add_net (v4 n, net) lists = (env.net_string net ∷ lists.0, lists.1)
  add_net (v6 n, net) lists = (lists.0, env.net_string net ∷ lists.1)

  unfoldable pub get_dst_cidr : List String → Result (List String × List String)
  get_dst_cidr [] = ok ([], [])
  get_dst_cidr (item ∷ items) =
      let rest = get_dst_cidr items in
      elim (env.text.parse_cidr item) [
        | none ↦ err invalid_cidr
        | some p ↦ rest >>= λ lists. ok (add_net p lists)
      ]

  -- getPolicySrcIPs: the addresses of the endpoints that pass the filter, and the listing
  unfoldable pub endpoint_ips :
      (EgressEndpoint → Bool) → List EgressEndpoint → List String × List String
  endpoint_ips filter [] = ([], [])
  endpoint_ips filter (e ∷ es) =
      let rest = endpoint_ips filter es in
      if filter e then (e.ipv4 ++ rest.0, e.ipv6 ++ rest.1) else rest

  unfoldable pub slice_ips :
      (EgressEndpoint → Bool) → List EgressEndpointSlice → List String × List String
  unfolding endpoint_ips
  slice_ips filter [] = ([], [])
  slice_ips filter (ep ∷ eps) =
      let rest = slice_ips filter eps in
      let here = endpoint_ips filter ep.endpoints in
      if ep.meta.deleting then rest else (here.0 ++ rest.0, here.1 ++ rest.1)

  unfoldable pub get_policy_src_ips :
      String → String → (EgressEndpoint → Bool) → Exec S (List String × List String)
  unfolding slice_ips
  get_policy_src_ips policy_ns policy_name filter =
      lift (
        env.as_selector (
          some (record {
            match_labels = (label_policy_name, policy_name) ∷ [];
            match_expressions = [];
          })))
      >>> λ selector.
          (if policy_ns == ""
            then env.client.list_cluster_slices selector
            else env.client.list_slices policy_ns selector)
          >>> λ eps. pure (slice_ips filter eps)
