-- ===== src/Webhook/Accepted.antt =====
-- Proofs on what the webhooks of pkg/controller/webhook/validate.go accept.
use egressgateway.Prelude.{ok, true, String, ◌≡◌, ◌==◌, eq_iff, arith}
use egressgateway.Webhook.PolicyChecks.{
  PolicyObject, check_immutable, check_changes, validate_egress_policy,
}
use egressgateway.Ip.Text.{Host}
use egressgateway.Webhook.Requests.{Operation, WebhookClient, AdmissionRequest, WebhookConfig}
use egressgateway.Api.{EgressPolicySpec}

check_immutable-ok :
    (h : Host) (spec old : EgressPolicySpec)
    → check_immutable h spec old ≡ ok tt
    → ((spec.egress_gateway_name == old.egress_gateway_name) ≡ true)
      × (spec.egress_ip.use_node_ip ≡ old.egress_ip.use_node_ip)
      × ((spec.egress_ip.ipv4 == old.egress_ip.ipv4) ≡ true)
      × ((spec.egress_ip.ipv6 == old.egress_ip.ipv6) ≡ true)
      × ((spec.egress_ip.allocator_policy == old.egress_ip.allocator_policy) ≡ true)
unfolding check_immutable
check_immutable-ok h spec old e = ground (arith, e)

-- the same spec, as far as an update may not change it
check_immutable-same :
    (h : Host) (spec old : EgressPolicySpec)
    → check_immutable h spec old ≡ ok tt
    → (spec.egress_gateway_name ≡ old.egress_gateway_name) × (spec.egress_ip ≡ old.egress_ip)
check_immutable-same h spec old e =
    let (name, node_ip, v4_same, v6_same, policy) = check_immutable-ok h spec old e in
    let p = (eq_iff spec.egress_ip.ipv4 old.egress_ip.ipv4).0 v4_same in
    let q = (eq_iff spec.egress_ip.ipv6 old.egress_ip.ipv6).0 v6_same in
    let r = (eq_iff spec.egress_ip.allocator_policy old.egress_ip.allocator_policy).0 policy in
    (
      (eq_iff spec.egress_gateway_name old.egress_gateway_name).0 name,
      (λ i. record { ipv4 = p i; ipv6 = q i; use_node_ip = node_ip i; allocator_policy = r i }),
    )

-- a request whose objects json.Unmarshal reads
abbrev pub request : {X : Type 0} → Operation → String → X → X → AdmissionRequest X
request operation name object old = record {
  operation = operation;
  name = name;
  object = ok object;
  old_object = ok old;
}

module _ {S : Type 0} (h : Host) (client : WebhookClient S) (cfg : WebhookConfig) where
  -- When the webhook accepts an update of a policy, the policy names the same gateway and has the
  -- same egress address as before.
  pub validate_egress_policy-same :
      (name : String) (p old : PolicyObject) (s s' : S)
      → validate_egress_policy h client cfg (request Operation.update name p old) s ≡ (ok tt, s')
      → (p.spec.egress_gateway_name ≡ old.spec.egress_gateway_name)
        × (p.spec.egress_ip ≡ old.spec.egress_ip)
  unfolding validate_egress_policy check_changes
  validate_egress_policy-same name p old s s' e =
      check_immutable-same h p.spec old.spec (ground (arith, e))
