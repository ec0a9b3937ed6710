-- ===== src/Webhook/GatewayChecks.antt =====
-- pkg/egressgateway/egress_gateway_webhook.go: EgressGatewayValidate.
use egressgateway.Prelude.{
  ok, true, false, none, some, Option, List, String, Bool, nat_beq, Result, ◌∷◌, ℕ, map, length,
  if◌then◌else◌, ◌&&◌, [], ◌==◌, not, ◌++◌, ◌>>=◌,
}
use egressgateway.Webhook.Requests.{
  WebhookConfig, WebhookClient, AdmissionRequest, deny_if, ◌then_check◌, call_or_denied, is_update,
  is_delete, or_denied, found_or_denied,
}
use egressgateway.Ip.Text.{Host}
use egressgateway.Api.{LabelSelector, Ippools, EgressGateway, Eips, EgressIpStatus}
use egressgateway.Ip.Address.{Ip}
use egressgateway.Ip.Merge.{merge_ip_ranges, is_ip_included_range}
use egressgateway.Ip.Range.{parse_ip_ranges, ipv4, ipv6}
use egressgateway.Controller.Flow.{Exec, ◌>>>◌, lift, pure}

-- the selector of the nodes is not set
abbrev pub is_unset : Option LabelSelector → Bool
is_unset none = true
is_unset (some s) = nat_beq (length s.match_labels) 0 && nat_beq (length s.match_expressions) 0

abbrev pub is_none_of : {A : Type 0} → List A → Bool
is_none_of xs = nat_beq (length xs) 0

-- the address families that are not enabled
unfoldable pub check_enabled : WebhookConfig → Ippools → Result (Unit {0})
check_enabled cfg pools =
    deny_if (cfg.enable_ipv4 && not cfg.enable_ipv6 && not (is_none_of pools.ipv6))
      "Please do not configure spec.ippools.ipv6, as the current installation settings have not enabled IPv6"
    then_check deny_if (not cfg.enable_ipv4 && cfg.enable_ipv6 && not (is_none_of pools.ipv4))
        "Please do not configure spec.ippools.ipv4, as the current installation settings have not enabled IPv4"

-- another gateway is the default of the cluster
unfoldable pub has_other_default : String → List EgressGateway → Bool
has_other_default name [] = false
has_other_default name (item ∷ items) =
    let rest = has_other_default name items in
    if item.spec.cluster_default && not (item.meta.name == name) then true else rest

-- ipv4Ranges, ipv6Ranges, ipv4s and ipv6s
pub record Pool : Type 0 where
  pub ipv4_ranges : List String
  pub ipv6_ranges : List String
  pub ipv4s : List Ip
  pub ipv6s : List Ip

module _ (h : Host) where
  abbrev pub parsed_if : Bool → ℕ → List String → Result (List Ip)
  parsed_if c version ranges = if c then parse_ip_ranges h version ranges else ok []

  unfoldable pub pool_of : WebhookConfig → Ippools → Result Pool
  unfolding merge_ip_ranges parse_ip_ranges
  pool_of cfg pools = do
    ipv4_ranges ← or_denied "Failed to check IP" (merge_ip_ranges h ipv4 pools.ipv4)
    ipv6_ranges ← or_denied "Failed to check IP" (merge_ip_ranges h ipv6 pools.ipv6)
    ipv4s ← or_denied "Failed to check IP" (parsed_if cfg.enable_ipv4 ipv4 ipv4_ranges)
    ipv6s ← or_denied "Failed to check IP" (parsed_if cfg.enable_ipv6 ipv6 ipv6_ranges)
    ok (record {
      ipv4_ranges = ipv4_ranges;
      ipv6_ranges = ipv6_ranges;
      ipv4s = ipv4s;
      ipv6s = ipv6s;
    })

  unfoldable pub check_numbers : WebhookConfig → Ippools → Pool → Result (Unit {0})
  check_numbers cfg pools pool =
      deny_if
        (cfg.enable_ipv4
          && cfg.enable_ipv6
          && (not (is_none_of pools.ipv4) && not (is_none_of pools.ipv6))
          && not (nat_beq (length pool.ipv4s) (length pool.ipv6s)))
        "The number of ipv4 and ipv6 is not equal"

  -- an address that is to stand in the ranges, or is not there
  unfoldable pub check_covered : String → String → ℕ → String → List String → Result (Unit {0})
  unfolding is_ip_included_range
  check_covered failed uncovered version eip ranges =
      if eip == ""
      then ok tt
      else (or_denied failed (is_ip_included_range h version eip ranges) >>= λ covered.
          deny_if (not covered) uncovered)

  abbrev pub ip_texts : List Ip → List String
  ip_texts ips = map h.text.ip_string ips

  -- the texts of the addresses of the other gateways, by gateway (buildClusterIPMap)
  unfoldable pub build_cluster_ip_map :
      List EgressGateway → String → Result (List (String × List String))
  unfolding merge_ip_ranges parse_ip_ranges
  build_cluster_ip_map [] skip_name = ok []
  build_cluster_ip_map (item ∷ items) skip_name =
      let rest = build_cluster_ip_map items skip_name in
      if item.meta.name == skip_name then rest else do
        ipv4_ranges ← merge_ip_ranges h ipv4 item.spec.ippools.ipv4
        ipv6_ranges ← merge_ip_ranges h ipv6 item.spec.ippools.ipv6
        ipv4s ← parse_ip_ranges h ipv4 ipv4_ranges
        ipv6s ← parse_ip_ranges h ipv6 ipv6_ranges
        others ← rest
        ok ((item.meta.name, ip_texts ipv4s ++ ip_texts ipv6s) ∷ others)

  unfoldable pub has_text : String → List String → Bool
  has_text addr [] = false
  has_text addr (s ∷ ss) = let rest = has_text addr ss in if s == addr then true else rest

  -- a gateway of the map has the address
  unfoldable pub in_cluster : String → List (String × List String) → Bool
  unfolding has_text
  in_cluster addr [] = false
  in_cluster addr (gw ∷ gws) =
      let rest = in_cluster addr gws in if has_text addr gw.1 then true else rest

  unfoldable pub has_duplicate : List Ip → List (String × List String) → Bool
  unfolding in_cluster
  has_duplicate [] gws = false
  has_duplicate (v ∷ ips) gws =
      let rest = has_duplicate ips gws in if in_cluster (h.text.ip_string v) gws then true else rest

  -- checkDupIP
  unfoldable pub check_dup_ip : List Ip → List Ip → List (String × List String) → Result (Unit {0})
  unfolding has_duplicate
  check_dup_ip ipv4s ipv6s gws =
      deny_if (has_duplicate ipv4s gws) "find duplicate IPv4"
      then_check deny_if (has_duplicate ipv6s gws) "find duplicate IPv6"

  -- the addresses that are assigned stay covered
  unfoldable pub check_eips : Pool → List Eips → Result (Unit {0})
  unfolding check_covered
  check_eips pool [] = ok tt
  check_eips pool (eip ∷ eips) =
      let rest = check_eips pool eips in
      check_covered "Failed to check IPv4" "has been allocated and cannot be deleted" ipv4 eip.ipv4
        pool.ipv4_ranges
      then_check check_covered "Failed to check IPv6" "has been allocated and cannot be deleted"
          ipv6 eip.ipv6 pool.ipv6_ranges
      then_check rest

  unfoldable pub check_node_list : Pool → List EgressIpStatus → Result (Unit {0})
  unfolding check_eips
  check_node_list pool [] = ok tt
  check_node_list pool (item ∷ items) =
      let rest = check_node_list pool items in check_eips pool item.eips then_check rest

  -- the checks of an update; a gateway that is not found is one without addresses and nodes
  unfoldable pub check_update : Ippools → Pool → Option EgressGateway → Result (Unit {0})
  unfolding check_node_list
  check_update pools pool none =
      deny_if (not (is_none_of pools.ipv4))
        "the 'spec.Ippools.IPv4' field cannot to be modified when it is empty"
      then_check deny_if (not (is_none_of pools.ipv6))
          "the 'spec.Ippools.IPv6' field cannot to be modified when it is empty"
  check_update pools pool (some old) =
      deny_if (is_none_of old.spec.ippools.ipv4 && not (is_none_of pools.ipv4))
        "the 'spec.Ippools.IPv4' field cannot to be modified when it is empty"
      then_check deny_if (is_none_of old.spec.ippools.ipv6 && not (is_none_of pools.ipv6))
          "the 'spec.Ippools.IPv6' field cannot to be modified when it is empty"
      then_check check_node_list pool old.status.node_list

  module _ {S : Type 0} (client : WebhookClient S) (cfg : WebhookConfig) where
    unfoldable pub check_cluster_default : EgressGateway → Exec S (Unit {0})
    unfolding has_other_default
    check_cluster_default eg =
        if eg.spec.cluster_default
        then (call_or_denied "Check for duplicate EgressGateway, get EgressGatewayList"
              client.list_gateways
            >>> λ items. lift (
                deny_if (has_other_default eg.meta.name items)
                  "A cluster can only have one default gateway"))
        else pure tt

    -- the pool is no part of another gateway's
    unfoldable pub check_duplicates : EgressGateway → Pool → Exec S (Unit {0})
    unfolding build_cluster_ip_map check_dup_ip
    check_duplicates eg pool =
        call_or_denied "Failed to get EgressGatewayList" client.list_gateways >>> λ items. lift (
          or_denied "Failed to build cluster EgressGateway IP map"
            (build_cluster_ip_map items eg.meta.name)
          >>= λ gws. check_dup_ip pool.ipv4s pool.ipv6s gws)

    unfoldable pub check_old_gateway :
        AdmissionRequest EgressGateway → EgressGateway → Pool → Exec S (Unit {0})
    unfolding check_update
    check_old_gateway req eg pool =
        if is_update req.operation
        then (found_or_denied "failed to obtain the EgressGateway" (client.get_gateway req.name)
            >>> λ old. lift (check_update eg.spec.ippools pool old))
        else pure tt

    -- the checks of the default addresses
    unfoldable pub check_default_eips : Ippools → Pool → Result (Unit {0})
    unfolding check_covered
    check_default_eips pools pool =
        check_covered "Failed to check ipv4DefaultEIP" "is not covered by IPPools" ipv4
          pools.ipv4_default_eip pool.ipv4_ranges
        then_check check_covered "Failed to check ipv6DefaultEIP" "is not covered by Ippools" ipv6
            pools.ipv6_default_eip pool.ipv6_ranges

    -- the checks that need the pool
    unfoldable pub check_pool :
        AdmissionRequest EgressGateway → EgressGateway → Pool → Exec S (Unit {0})
    unfolding check_numbers check_default_eips check_duplicates check_old_gateway
    check_pool req eg pool =
        lift (
          check_numbers cfg eg.spec.ippools pool then_check check_default_eips eg.spec.ippools pool)
        >>> λ _. check_duplicates eg pool >>> λ _. check_old_gateway req eg pool

    -- EgressGatewayValidate
    unfoldable pub egress_gateway_validate : AdmissionRequest EgressGateway → Exec S (Unit {0})
    unfolding check_enabled check_cluster_default pool_of check_pool
    egress_gateway_validate req =
        if is_delete req.operation
        then pure tt
        else (lift (or_denied "json unmarshal EgressGateway with error" req.object) >>> λ eg.
            lift (
              deny_if (is_unset eg.spec.node_selector.selector)
                "The field spec.nodeSelector.selector is not set"
              then_check check_enabled cfg eg.spec.ippools)
            >>> λ _. check_cluster_default eg >>> λ _.
                lift (pool_of cfg eg.spec.ippools) >>> λ pool. check_pool req eg pool)
