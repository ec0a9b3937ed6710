-- ===== src/Webhook/ClusterChecks.antt =====
-- pkg/controller/webhook/validate.go: validateEgressClusterPolicy, whose checks repeat those of
-- validateEgressPolicy.
use Prim.Native.String as Text
use egressgateway.Prelude.{
  true, false, none, some, Option, List, String, Bool, not, Result, ◌&&◌, if◌then◌else◌, ◌==◌, ◌||◌,
}
use egressgateway.Api.{ObjectMeta, EgressPolicySpec, LabelSelector}
use egressgateway.Ip.Text.{Host}
use egressgateway.Webhook.Requests.{
  WebhookClient, WebhookConfig, deny_if, ◌then_check◌, AdmissionRequest, or_denied, is_delete,
  is_update, is_create, Operation, prefixed_call,
}
use egressgateway.Webhook.GatewayChecks.{is_none_of, is_unset}
use egressgateway.Webhook.PolicyChecks.{
  has_match_labels, is_ipv4_text, is_ipv6_text, validate_subnet, check_egw_ippools, check_eip,
  check_eip_included,
}
use egressgateway.Controller.Flow.{Exec, pure, ◌>>>◌, lift}

-- EgressClusterPolicy; its subnets are a pointer
pub record ClusterPolicyObject : Type 0 where
  pub meta : ObjectMeta
  pub spec : EgressPolicySpec
  pub pod_selector : Option LabelSelector
  pub pod_subnet : Option (List String)
  pub dest_subnet : List String

abbrev pub has_subnet : Option (List String) → Bool
has_subnet none = false
has_subnet (some xs) = not (is_none_of xs)

abbrev pub is_missing : Option (List String) → Bool
is_missing none = true
is_missing (some xs) = is_none_of xs

-- the pods are given by labels or by subnets
abbrev pub check_cluster_applied : Option LabelSelector → Option (List String) → Result (Unit {0})
check_cluster_applied selector pod_subnet =
    deny_if (has_match_labels selector && has_subnet pod_subnet)
      "podSelector and podSubnet cannot be used together"
    then_check deny_if (is_missing pod_subnet && is_unset selector)
        "invalid EgressClusterPolicy, spec.appliedTo field requires at least one of spec.appliedTo.podSubnet, .spec.appliedTo.podSelector.matchLabels or .spec.appliedTo.podSelector.matchExpressions to be specified."

module _ (h : Host) where
  -- the checks of the spec
  unfoldable pub check_cluster_spec : EgressPolicySpec → Result (Unit {0})
  unfolding is_ipv4_text is_ipv6_text
  check_cluster_spec spec =
      deny_if (spec.egress_gateway_name == "") "egressGatewayName cannot be empty"
      then_check deny_if
          (spec.egress_ip.use_node_ip
            && (not (spec.egress_ip.ipv4 == "") || not (spec.egress_ip.ipv6 == "")))
          "useNodeIP cannot be used with egressIP.ipv4 or egressIP.ipv6 at the same time"
      then_check deny_if
          (not (spec.egress_ip.ipv4 == "") && not (is_ipv4_text h spec.egress_ip.ipv4))
          "invalid ipv4 format"
      then_check deny_if
          (not (spec.egress_ip.ipv6 == "") && not (is_ipv6_text h spec.egress_ip.ipv6))
          "invalid ipv6 format"

  -- what an update may not change
  unfoldable pub check_cluster_immutable : EgressPolicySpec → EgressPolicySpec → Result (Unit {0})
  check_cluster_immutable spec old =
      deny_if (not (spec.egress_gateway_name == old.egress_gateway_name))
        "'spec.EgressGatewayName' field is immutable"
      then_check deny_if
          (if spec.egress_ip.use_node_ip
            then not old.egress_ip.use_node_ip
            else old.egress_ip.use_node_ip)
          "the UseNodeIP field cannot be modified"
      then_check deny_if (not (spec.egress_ip.ipv4 == old.egress_ip.ipv4))
          "the EgressIP.IPv4 field cannot be modified"
      then_check deny_if (not (spec.egress_ip.ipv6 == old.egress_ip.ipv6))
          "the EgressIP.IPv6 field cannot be modified"
      then_check deny_if (not (spec.egress_ip.allocator_policy == old.egress_ip.allocator_policy))
          "the EgressIP.AllocatorPolicy field cannot be modified"

  module _ {S : Type 0} (client : WebhookClient S) (cfg : WebhookConfig) where
    -- the checks of a new policy
    unfoldable pub check_cluster_create : String → EgressPolicySpec → Exec S (Unit {0})
    unfolding check_eip check_egw_ippools check_eip_included
    check_cluster_create policy_name spec =
        let ip = spec.egress_ip in
        let name = spec.egress_gateway_name in
        (if cfg.enable_ipv4 || cfg.enable_ipv6
          then (check_eip h client cfg ip.ipv4 ip.ipv6 name >>> λ _.
              if ip.use_node_ip
              then pure tt
              else prefixed_call
                  (Text.◌++◌ "when policy(" (Text.◌++◌ policy_name ") UseNodeIP is false, "))
                  (check_egw_ippools h client cfg name))
          else pure tt)
        >>> λ _. check_eip_included h client cfg ip.ipv4 ip.ipv6 name

    -- the checks after those of the spec
    unfoldable pub check_cluster_changes :
        Operation → ClusterPolicyObject → Result ClusterPolicyObject → Exec S (Unit {0})
    unfolding check_cluster_immutable check_cluster_create validate_subnet
    check_cluster_changes operation policy old =
        (if is_update operation
          then (lift old >>> λ old_policy.
              lift (check_cluster_immutable policy.spec old_policy.spec))
          else pure tt)
        >>> λ _.
            (if is_create operation
              then check_cluster_create policy.meta.name policy.spec
              else pure tt)
            >>> λ _. lift (validate_subnet h policy.dest_subnet)

    -- validateEgressClusterPolicy
    unfoldable pub validate_egress_cluster_policy :
        AdmissionRequest ClusterPolicyObject → Exec S (Unit {0})
    unfolding check_cluster_spec check_cluster_changes
    validate_egress_cluster_policy req =
        if is_delete req.operation
        then pure tt
        else (lift (or_denied "json unmarshal EgressClusterPolicy with error" req.object)
            >>> λ policy. lift (check_cluster_spec policy.spec) >>> λ _.
                lift (check_cluster_applied policy.pod_selector policy.pod_subnet) >>> λ _.
                check_cluster_changes req.operation policy
                  (or_denied "json unmarshal EgressClusterPolicy with error" req.old_object))
