-- ===== src/Webhook/PolicyChecks.antt =====
-- pkg/controller/webhook/validate.go: validateEgressPolicy, and the checks of
-- addresses and subnets that validateEgressClusterPolicy calls too.
use Prim.Native.String as Text
use egressgateway.Ip.Address.{nil, v4, v6}
use egressgateway.Prelude.{
  ok, true, false, none, some, Option, List, String, Bool, not, Result, ◌∷◌, ◌&&◌, if◌then◌else◌,
  ◌==◌, ◌++◌, ◌||◌, [], ◌>>=◌,
}
use egressgateway.Api.{ObjectMeta, EgressPolicySpec, LabelSelector, Ippools, EgressGateway}
use egressgateway.Ip.Text.{Host}
use egressgateway.Ip.Address.{Ip, is_to4, IpNet}
use egressgateway.Gateway.Usage.{get_eip_by_ipv4, get_eip_by_ipv6}
use egressgateway.Ip.Merge.{check_ip_included}
use egressgateway.Webhook.Requests.{
  WebhookClient, WebhookConfig, deny_if, ◌then_check◌, AdmissionRequest, or_denied, call_or_denied,
  is_delete, found_or_denied, prefixed_call, is_update, is_create, Operation,
}
use egressgateway.Webhook.GatewayChecks.{is_none_of, is_unset}
use egressgateway.Controller.Flow.{Exec, pure, ◌>>>◌, lift}
use egressgateway.Tunnel.Release.{is_to16}

-- EgressPolicy as the webhook reads it; AppliedTo is its selector and its subnets
pub record PolicyObject : Type 0 where
  pub meta : ObjectMeta
  pub spec : EgressPolicySpec
  pub pod_selector : Option LabelSelector
  pub pod_subnet : List String
  pub dest_subnet : List String

abbrev pub has_match_labels : Option LabelSelector → Bool
has_match_labels none = false
has_match_labels (some s) = not (is_none_of s.match_labels)

-- the pods are given by labels or by subnets
abbrev pub check_applied : Option LabelSelector → List String → Result (Unit {0})
check_applied selector pod_subnet =
    deny_if (has_match_labels selector && not (is_none_of pod_subnet))
      "podSelector and podSubnet cannot be used together"
    then_check deny_if (is_none_of pod_subnet && is_unset selector)
        "invalid EgressPolicy, spec.appliedTo field requires at least one of spec.appliedTo.podSubnet, .spec.appliedTo.podSelector.matchLabels or .spec.appliedTo.podSelector.matchExpressions to be specified."

module _ (h : Host) where
  -- isIPv4 and isIPv6
  unfoldable pub is_ipv4_text : String → Bool
  is_ipv4_text ip = is_to4 (h.text.parse_ip ip)

  unfoldable pub is_ipv6_text : String → Bool
  is_ipv6_text ip = elim (h.text.parse_ip ip) [ nil ↦ false | v4 n ↦ false | v6 n ↦ true ]

  -- the checks of the spec
  unfoldable pub check_spec : EgressPolicySpec → Result (Unit {0})
  unfolding is_ipv4_text is_ipv6_text
  check_spec spec =
      deny_if (spec.egress_gateway_name == "") "egressGatewayName cannot be empty"
      then_check deny_if
          (spec.egress_ip.use_node_ip
            && (not (spec.egress_ip.ipv4 == "") || not (spec.egress_ip.ipv6 == "")))
          "useNodeIP cannot be used with egressIP.ipv4 or egressIP.ipv6 at the same time"
      then_check deny_if (not (spec.egress_ip.ipv4 == "") && not (is_ipv4_text spec.egress_ip.ipv4))
          "invalid ipv4 format"
      then_check deny_if (not (spec.egress_ip.ipv6 == "") && not (is_ipv6_text spec.egress_ip.ipv6))
          "invalid ipv6 format"

  -- what an update may not change
  unfoldable pub check_immutable : EgressPolicySpec → EgressPolicySpec → Result (Unit {0})
  check_immutable spec old =
      deny_if (not (spec.egress_gateway_name == old.egress_gateway_name))
        "'spec.EgressGatewayName' field is immutable"
      then_check deny_if
          (if spec.egress_ip.use_node_ip
            then not old.egress_ip.use_node_ip
            else old.egress_ip.use_node_ip)
          "the UseNodeIP field cannot be modified"
      then_check deny_if (not (spec.egress_ip.ipv4 == old.egress_ip.ipv4))
          "the EgressIP.IPv4 field cannot be modified"
      then_check deny_if (not (spec.egress_ip.ipv6 == old.egress_ip.ipv6))
          "the EgressIP.IPv6 field cannot be modified"
      then_check deny_if (not (spec.egress_ip.allocator_policy == old.egress_ip.allocator_policy))
          "the EgressIP.AllocatorPolicy field cannot be modified"

  -- a text that ParseCIDR does not read, or whose address has neither form
  abbrev pub is_bad_subnet : Option (Ip × IpNet) → Bool
  is_bad_subnet none = true
  is_bad_subnet (some p) = not (is_to4 p.0) && not (is_to16 p.0)

  unfoldable pub invalid_subnets : List String → List String
  invalid_subnets [] = []
  invalid_subnets (subnet ∷ subnets) =
      let rest = invalid_subnets subnets in
      if is_bad_subnet (h.text.parse_cidr subnet) then subnet ∷ rest else rest

  -- validateSubnet
  unfoldable pub validate_subnet : List String → Result (Unit {0})
  unfolding invalid_subnets
  validate_subnet subnet =
      deny_if (not (is_none_of (invalid_subnets subnet))) "invalid destSubnet list"

  -- the two default addresses are used together, or neither is
  unfoldable pub check_defaults : String → String → Ippools → Result (Unit {0})
  check_defaults eip4 eip6 pools =
      let is_v4 = eip4 == pools.ipv4_default_eip in
      let is_v6 = eip6 == pools.ipv6_default_eip in
      deny_if
        (not (pools.ipv4_default_eip == "")
          && not (pools.ipv6_default_eip == "")
          && ((is_v4 || is_v6) && (not is_v4 || not is_v6)))
        "they can only be used together"

  -- the other address that an EIP of the gateway already has
  unfoldable pub check_pair : Bool → String → String → Result (Unit {0})
  check_pair has_pool other eip =
      deny_if (has_pool && (not (other == "") && not (eip == other))) "cannot be used"

  unfoldable pub check_eip_of : String → String → EgressGateway → Result (Unit {0})
  unfolding check_defaults check_pair get_eip_by_ipv4 get_eip_by_ipv6
  check_eip_of eip4 eip6 egw =
      check_defaults eip4 eip6 egw.spec.ippools
      then_check check_pair (not (is_none_of egw.spec.ippools.ipv4)) (get_eip_by_ipv4 eip4 egw).ipv6
          eip6
      then_check check_pair (not (is_none_of egw.spec.ippools.ipv6)) (get_eip_by_ipv6 eip6 egw).ipv4
          eip4

  -- one address, if there is one
  unfoldable pub check_included : String → List String → Result (Unit {0})
  unfolding check_ip_included
  check_included eip ips =
      if eip == ""
      then ok tt
      else (or_denied "failed to check the address" (check_ip_included h eip ips) >>= λ covered.
          deny_if (not covered)
            "the Spec.EgressIP.IPv4 or Spec.EgressIP.IPv6 is not within the ip ranges defined in the ippools of the egressgateway")

  -- a gateway that is not found is one without addresses
  unfoldable pub check_included_in : String → String → Option EgressGateway → Result (Unit {0})
  unfolding check_included
  check_included_in eip4 eip6 none = ok tt
  check_included_in eip4 eip6 (some egw) =
      let ips = egw.spec.ippools.ipv4 ++ egw.spec.ippools.ipv6 in
      if is_none_of ips then ok tt else (check_included eip4 ips then_check check_included eip6 ips)

  module _ {S : Type 0} (client : WebhookClient S) (cfg : WebhookConfig) where
    -- checkEGWIppools
    unfoldable pub check_egw_ippools : String → Exec S (Unit {0})
    check_egw_ippools name =
        call_or_denied "failed to obtain the EgressGateway" (client.get_gateway name) >>> λ egw.
        lift (
          deny_if (is_none_of egw.spec.ippools.ipv4 && is_none_of egw.spec.ippools.ipv6) (
            Text.◌++◌ "referenced egw(" (Text.◌++◌ egw.meta.name ") spec.Ippools cannot be empty")))

    -- checkEIP
    unfoldable pub check_eip : String → String → String → Exec S (Unit {0})
    unfolding check_eip_of
    check_eip eip4 eip6 egw_name =
        if eip4 == "" && eip6 == ""
        then pure tt
        else (call_or_denied "failed to get the EgressGateway" (client.get_gateway egw_name)
            >>> λ egw. lift (check_eip_of eip4 eip6 egw))

    -- checkEIPIncluded
    unfoldable pub check_eip_included : String → String → String → Exec S (Unit {0})
    unfolding check_included_in
    check_eip_included eip4 eip6 egw_name =
        if eip4 == "" && eip6 == ""
        then pure tt
        else (found_or_denied "failed to get the EgressGateway" (client.get_gateway egw_name)
            >>> λ egw. lift (check_included_in eip4 eip6 egw))

    -- the checks of a new policy
    unfoldable pub check_create : String → EgressPolicySpec → Exec S (Unit {0})
    unfolding check_eip check_egw_ippools check_eip_included
    check_create policy_name spec =
        let ip = spec.egress_ip in
        let name = spec.egress_gateway_name in
        (if cfg.enable_ipv4 || cfg.enable_ipv6
          then (check_eip ip.ipv4 ip.ipv6 name >>> λ _.
              if ip.use_node_ip
              then pure tt
              else prefixed_call
                  (Text.◌++◌ "when egp(" (Text.◌++◌ policy_name ") UseNodeIP is false, "))
                  (check_egw_ippools name))
          else pure tt)
        >>> λ _. check_eip_included ip.ipv4 ip.ipv6 name

    -- the checks after those of the spec
    unfoldable pub check_changes :
        Operation → PolicyObject → Result PolicyObject → Exec S (Unit {0})
    unfolding check_immutable check_create validate_subnet
    check_changes operation egp old =
        (if is_update operation
          then (lift old >>> λ old_egp. lift (check_immutable egp.spec old_egp.spec))
          else pure tt)
        >>> λ _.
            (if is_create operation then check_create egp.meta.name egp.spec else pure tt) >>> λ _.
            lift (validate_subnet egp.dest_subnet)

    -- validateEgressPolicy
    unfoldable pub validate_egress_policy : AdmissionRequest PolicyObject → Exec S (Unit {0})
    unfolding check_spec check_changes
    validate_egress_policy req =
        if is_delete req.operation
        then pure tt
        else (lift (or_denied "json unmarshal EgressPolicy with error" req.object) >>> λ egp.
            lift (check_spec egp.spec) >>> λ _.
            lift (check_applied egp.pod_selector egp.pod_subnet) >>> λ _.
            check_changes req.operation egp
              (or_denied "json unmarshal EgressPolicy with error" req.old_object))
