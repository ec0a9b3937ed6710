-- ===== src/Webhook/Hooks.antt =====
-- pkg/controller/webhook/validate.go and mutating.go: the hooks, which tell the kinds apart.
use egressgateway.Prelude.{ℕ, List, []}
use egressgateway.Webhook.Requests.{
  Operation, AdmissionRequest, WebhookClient, WebhookConfig, deny_if, is_delete,
}
use egressgateway.Ip.Text.{Host}
use egressgateway.Api.{EgressGateway}
use egressgateway.Webhook.PolicyChecks.{PolicyObject, validate_egress_policy}
use egressgateway.Webhook.ClusterChecks.{ClusterPolicyObject, validate_egress_cluster_policy}
use egressgateway.Webhook.GatewayChecks.{egress_gateway_validate}
use egressgateway.Webhook.Defaults.{
  egress_gateway_mutate, mutate_hook_egress_policy, mutate_hook_egress_cluster_policy, Patch,
}
use egressgateway.Controller.Flow.{Exec, lift, pure}

-- a request by its kind, req.Kind.Kind
pub data Review : Type 0 where
  egress_cluster_info : Operation → Review
  egress_gateway : AdmissionRequest EgressGateway → Review
  egress_policy : AdmissionRequest PolicyObject → Review
  egress_cluster_policy : AdmissionRequest ClusterPolicyObject → Review
  other : Review

module _ {S : Type 0} (h : Host) (client : WebhookClient S) (cfg : WebhookConfig) where
  -- ValidateHook
  unfoldable pub validate_hook : Review → Exec S (Unit {0})
  unfolding egress_gateway_validate validate_egress_cluster_policy validate_egress_policy
  validate_hook (Review.egress_cluster_info operation) =
      lift
        (deny_if (is_delete operation) "EgressClusterInfo 'default' is not allowed to be deleted")
  validate_hook (Review.egress_gateway req) = egress_gateway_validate h client cfg req
  validate_hook (Review.egress_cluster_policy req) = validate_egress_cluster_policy h client cfg req
  validate_hook (Review.egress_policy req) = validate_egress_policy h client cfg req
  validate_hook Review.other = pure tt

  -- MutateHook
  unfoldable pub mutate_hook : (ℕ → ℕ) → (ℕ → ℕ) → Review → Exec S (List Patch)
  unfolding egress_gateway_mutate mutate_hook_egress_policy mutate_hook_egress_cluster_policy
  mutate_hook intn_v4 intn_v6 (Review.egress_gateway req) =
      lift (egress_gateway_mutate h intn_v4 intn_v6 cfg req)
  mutate_hook intn_v4 intn_v6 (Review.egress_policy req) = mutate_hook_egress_policy client req
  mutate_hook intn_v4 intn_v6 (Review.egress_cluster_policy req) =
      mutate_hook_egress_cluster_policy client req
  mutate_hook intn_v4 intn_v6 (Review.egress_cluster_info operation) = pure []
  mutate_hook intn_v4 intn_v6 Review.other = pure []
