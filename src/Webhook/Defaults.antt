-- ===== src/Webhook/Defaults.antt =====
-- The defaults that the webhooks fill in: EgressGatewayMutate of
-- pkg/egressgateway/egress_gateway_webhook.go and pkg/controller/webhook/mutating.go.
use egressgateway.Prelude.{
  ok, err, panic, no_fuel, false, none, some, String, Result, List, ℕ, Bool, if◌then◌else◌, ◌==◌,
  ◌∷◌, [], get_elem?, ◌&&◌, length, not, ◌>>=◌, ◌++◌,
}
use egressgateway.Ip.Text.{Host}
use egressgateway.Webhook.Requests.{
  Operation, WebhookClient, AdmissionRequest, WebhookConfig, call_or_denied, is_create, or_denied,
  denied,
}
use egressgateway.Api.{EgressIp, EgressGateway}
use egressgateway.Controller.Flow.{Exec, is_not_found, ◌>>>◌, lift, pure}
use egressgateway.Ip.Address.{Ip}
use egressgateway.Ip.Merge.{merge_ip_ranges}
use egressgateway.Webhook.PolicyChecks.{PolicyObject}
use egressgateway.Webhook.ClusterChecks.{ClusterPolicyObject}
use egressgateway.Ip.Range.{parse_ip_ranges, ipv4, ipv6}
use egressgateway.Webhook.GatewayChecks.{is_none_of}

pub data PatchValue : Type 0 where
  text : String → PatchValue
  texts : List String → PatchValue
  egress_ip : EgressIp → PatchValue

-- a patch that adds a value at a path
pub record Patch : Type 0 where
  pub path : String
  pub value : PatchValue

-- egressGatewayFinalizers
abbrev pub egress_gateway_finalizers : String
egress_gateway_finalizers = "egressgateway.spidernet.io/egressgateway"

-- the addresses, none where ParseIPRanges returns an error
abbrev pub or_no_ips : Result (List Ip) → Result (List Ip)
or_no_ips (err e) = ok []
or_no_ips (ok ips) = ok ips
or_no_ips panic = panic
or_no_ips no_fuel = no_fuel

module _ (h : Host) (intn : ℕ → ℕ) where
  -- an address of the pool, by the generator's number below the length
  unfoldable pub draw_patch : String → List Ip → Result (List Patch)
  draw_patch path [] = ok []
  draw_patch path (ip ∷ ips) = elim (get_elem? (ip ∷ ips) (intn (length (ip ∷ ips)))) [
    | none ↦ panic
    | some drawn ↦
        ok (record { path = path; value = PatchValue.text (h.text.ip_string drawn) } ∷ [])
  ]

  -- the default address of a version, for a gateway that has addresses and names none
  unfoldable pub default_eip_patch : Bool → ℕ → String → String → List String → Result (List Patch)
  unfolding merge_ip_ranges parse_ip_ranges draw_patch
  default_eip_patch enabled version path default_eip pool =
      if enabled && (default_eip == "" && not (is_none_of pool))
      then (or_denied "ippools format error" (merge_ip_ranges h version pool) >>= λ ranges.
          or_no_ips (parse_ip_ranges h version ranges) >>= λ ips. draw_patch path ips)
      else ok []

-- getEgressGatewayFinalizerPatch
unfoldable pub get_egress_gateway_finalizer_patch : Operation → List String → List Patch
get_egress_gateway_finalizer_patch operation finalizers =
    if is_create operation
    then record { path = "/metadata/finalizers"; value = PatchValue.texts finalizers } ∷ []
    else []

-- EgressGatewayMutate; the generator is drawn from once for each version
unfoldable pub egress_gateway_mutate :
    Host → (ℕ → ℕ) → (ℕ → ℕ) → WebhookConfig → AdmissionRequest EgressGateway → Result (List Patch)
unfolding default_eip_patch get_egress_gateway_finalizer_patch
egress_gateway_mutate h intn_v4 intn_v6 cfg req =
    or_denied "json unmarshal EgressGateway with error" req.object >>= λ eg.
    default_eip_patch h intn_v4 cfg.enable_ipv4 ipv4 "/spec/ippools/ipv4DefaultEIP"
      eg.spec.ippools.ipv4_default_eip eg.spec.ippools.ipv4
    >>= λ v4_patch.
        default_eip_patch h intn_v6 cfg.enable_ipv6 ipv6 "/spec/ippools/ipv6DefaultEIP"
          eg.spec.ippools.ipv6_default_eip eg.spec.ippools.ipv6
        >>= λ v6_patch. ok (
            v4_patch
            ++ v6_patch
            ++ get_egress_gateway_finalizer_patch req.operation (egress_gateway_finalizers ∷ []))

-- EgressIP.IsEmpty
unfoldable pub is_empty_ip : EgressIp → Bool
is_empty_ip eip =
    eip.ipv4 == "" && (eip.ipv6 == "" && (not eip.use_node_ip && eip.allocator_policy == ""))

abbrev pub gateway_name_patch : String → List Patch
gateway_name_patch name =
    record { path = "/spec/egressGatewayName"; value = PatchValue.text name } ∷ []

abbrev pub egress_ip_patch : EgressIp → List Patch
egress_ip_patch eip =
    if is_empty_ip eip
    then record {
      path = "/spec/egressIP";
      value =
          PatchValue.egress_ip
            (record { ipv4 = ""; ipv6 = ""; use_node_ip = false; allocator_policy = "default" });
    }
      ∷ []
    else []

-- the last default gateway of the list
unfoldable pub default_gateway : String → List EgressGateway → String
default_gateway name [] = name
default_gateway name (item ∷ items) =
    default_gateway (if item.spec.cluster_default then item.meta.name else name) items

-- ns.Labels[LabelNamespaceEgressGatewayDefault], empty where it is missing
unfoldable pub label_of : String → List (String × String) → String
label_of key [] = ""
label_of key (l ∷ ls) = let rest = label_of key ls in if l.0 == key then l.1 else rest

-- LabelNamespaceEgressGatewayDefault
abbrev pub label_namespace_default : String
label_namespace_default = "spidernet.io/egressgateway-default"

abbrev pub patch_of_default : Result (List EgressGateway) → Result (List Patch)
patch_of_default (err e) =
    if is_not_found e then ok [] else denied "failed to check global default EgressGateway"
patch_of_default (ok items) =
    let name = default_gateway "" items in
    if name == "" then ok [] else ok (gateway_name_patch name)
patch_of_default panic = panic
patch_of_default no_fuel = no_fuel

module _ {S : Type 0} (client : WebhookClient S) where
  -- getGlobalDefaultEgwPatch
  unfoldable pub get_global_default_egw_patch : Exec S (List Patch)
  unfolding default_gateway
  get_global_default_egw_patch s = let r = client.list_gateways s in (patch_of_default r.0, r.1)

  -- the gateway of the namespace's label, or else the default of the cluster
  unfoldable pub namespace_default_patch : String → Exec S (List Patch)
  unfolding get_global_default_egw_patch label_of
  namespace_default_patch namespace =
      call_or_denied "failed to get EgressPolicy namespaces" (client.get_namespace namespace)
      >>> λ labels.
          let egw = label_of label_namespace_default labels in
          if egw == "" then get_global_default_egw_patch else pure (gateway_name_patch egw)

  -- mutateHookEgressPolicy
  unfoldable pub mutate_hook_egress_policy : AdmissionRequest PolicyObject → Exec S (List Patch)
  unfolding namespace_default_patch is_empty_ip
  mutate_hook_egress_policy req =
      lift (or_denied "json unmarshal EgressPolicy with error" req.object) >>> λ policy.
      (if policy.spec.egress_gateway_name == ""
        then namespace_default_patch policy.meta.namespace
        else pure [])
      >>> λ patches. pure (patches ++ egress_ip_patch policy.spec.egress_ip)

  -- mutateHookEgressClusterPolicy
  unfoldable pub mutate_hook_egress_cluster_policy :
      AdmissionRequest ClusterPolicyObject → Exec S (List Patch)
  unfolding get_global_default_egw_patch is_empty_ip
  mutate_hook_egress_cluster_policy req =
      lift (or_denied "json unmarshal EgressPolicy with error" req.object) >>> λ policy.
      (if policy.spec.egress_gateway_name == "" then get_global_default_egw_patch else pure [])
      >>> λ patches. pure (patches ++ egress_ip_patch policy.spec.egress_ip)
