-- ===== src/Controller/Policy.antt =====
-- pkg/egressgateway/egress_gateway.go: the reconcile functions of policies.
use egressgateway.Prelude.{
  String, Bool, true, false, not, ◌&&◌, List, [], ◌∷◌, ◌==◌, none, some, if◌then◌else◌, message,
  not_enough_ip,
}
use egressgateway.Api.{EgressGateway, EgressPolicy}
use egressgateway.Ip.Text.{Host}
use egressgateway.Gateway.Lookup.{AssignedIp, get_assigned_ip, delete_egress_policy}
use egressgateway.Gateway.Nodes.{Request}
use egressgateway.Gateway.Assign.{assign_ip}
use egressgateway.Controller.Flow.{
  Exec, M, ◌>>=◌, ◌>>◌, go_on, fail, stop, lift, or_fail, or_not_found,
}
use egressgateway.Controller.Client.{Client}
use egressgateway.Controller.Status.{
  update_egress_policy_status_if_need, update_egress_cluster_policy_status_if_need,
  update_gateway_status_with_usage,
}

module _ {S : Type 0} (client cli : Client S) (h : Host) where
  -- the policy is assigned an address in the gateway's status, and the gateway written unless
  -- `write` says not to; then the policy's own status follows
  unfoldable pub assign_and_update :
      (EgressPolicy → AssignedIp → Exec S (Unit {0}))
      → Bool
      → Request
      → EgressGateway
      → EgressPolicy
      → M S EgressGateway
  assign_and_update update write req gateway policy =
      let old = λ (a : AssignedIp). or_fail true (update policy a) >> go_on gateway in
      let new = or_fail true (lift (assign_ip h gateway req policy.spec.egress_ip)) >>= λ r.
      elim r.0 [
        | none ↦ fail true not_enough_ip
        | some a ↦
            (if write
              then or_fail true (update_gateway_status_with_usage client h r.1)
              else go_on r.1)
            >>= λ g. or_fail true (update policy a) >> go_on g
      ] in
      elim (get_assigned_ip gateway req.namespace req.name) [ none ↦ new | some a ↦ old a ]

  -- deleteEgressPolicy of one gateway, which is written if it held the policy
  unfoldable pub delete_and_update : Request → EgressGateway → M S Bool
  delete_and_update req gateway =
      let (update, g) = delete_egress_policy gateway req.namespace req.name in
      if update
      then (or_fail true (update_gateway_status_with_usage client h g) >>= λ _. go_on true)
      else go_on false

  -- the gateways in turn, up to the first that held the policy
  unfoldable pub delete_from_gateways : Request → List EgressGateway → M S (Unit {0})
  unfolding delete_and_update
  delete_from_gateways req [] = go_on tt
  delete_from_gateways req (gateway ∷ gateways) =
      let rest = delete_from_gateways req gateways in
      delete_and_update req gateway >>= λ update. if update then go_on tt else rest

  -- reconcileDeletePolicy; the same code stands in reconcileEgressPolicy
  unfoldable pub reconcile_delete_policy : Request → String → M S (Unit {0})
  unfolding delete_from_gateways delete_and_update
  reconcile_delete_policy req egw_name =
      if egw_name == ""
      then (do
        found ← or_not_found true cli.list_gateways
        elim found [
          | none ↦ stop false
          | some gateways ↦ delete_from_gateways req gateways >> stop false
        ])
      else (do
        found ← or_not_found true (cli.get_gateway egw_name)
        elim found [
          | none ↦ stop false
          | some gateway ↦
              (if not (gateway.meta.name == "")
                then (delete_and_update req gateway >>= λ _. go_on tt)
                else go_on tt)
              >> stop false
        ])

  -- the rest of reconcileEgressPolicy and of reconcileEgressClusterPolicy for a policy that is there
  unfoldable pub reconcile_present :
      (EgressPolicy → AssignedIp → Exec S (Unit {0})) → Request → EgressPolicy → M S (Unit {0})
  unfolding assign_and_update
  reconcile_present update req policy =
      if not (policy.meta.name == "") && not (policy.spec.egress_gateway_name == "")
      then (do
        found ← or_not_found true (cli.get_gateway policy.spec.egress_gateway_name)
        elim found [
          | none ↦ fail false (message "not found egress gateway")
          | some gateway ↦ assign_and_update update true req gateway policy >>= λ _. stop false
        ])
      else stop false

  unfoldable pub reconcile_policy :
      Exec S EgressPolicy
      → (EgressPolicy → AssignedIp → Exec S (Unit {0}))
      → Request
      → M S (Unit {0})
  unfolding reconcile_delete_policy reconcile_present
  reconcile_policy get update req = do
    found ← or_not_found true get
    elim found [
      | none ↦ reconcile_delete_policy req ""
      | some policy ↦
          if policy.meta.deleting
          then reconcile_delete_policy req policy.spec.egress_gateway_name
          else reconcile_present update req policy
    ]

  -- reconcileEgressPolicy
  unfoldable pub reconcile_egress_policy : Request → M S (Unit {0})
  unfolding reconcile_policy
  reconcile_egress_policy req =
      reconcile_policy (client.get_policy req.namespace req.name)
        (update_egress_policy_status_if_need client) req

  -- reconcileEgressClusterPolicy
  unfoldable pub reconcile_egress_cluster_policy : Request → M S (Unit {0})
  unfolding reconcile_policy
  reconcile_egress_cluster_policy req =
      reconcile_policy (client.get_cluster_policy req.namespace req.name)
        (update_egress_cluster_policy_status_if_need client) req
