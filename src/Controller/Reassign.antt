-- ===== src/Controller/Reassign.antt =====
-- pkg/egressgateway/egress_gateway.go: assigning all policies of a gateway, and reconcileTunnel.
use egressgateway.Prelude.{
  ℕ, suc, zero, String, Bool, true, false, not, ◌||◌, List, [], ◌∷◌, ◌==◌, Option, none, some,
  nat_beq, length, modify, if◌then◌else◌, ok,
}
use egressgateway.Api.{EgressGateway, EgressPolicy, EgressIpStatus, EgressTunnel, Eips, ready_count}
use egressgateway.Api.Phase
use egressgateway.Ip.Text.{Host}
use egressgateway.Gateway.Nodes.{Request, with_nodes}
use egressgateway.Gateway.Move.{move_eip_to_ready_node}
use egressgateway.Controller.Flow.{
  M, ◌>>=◌, ◌>>◌, go_on, stop, lift, or_fail, or_not_found, fold_each, for_each,
}
use egressgateway.Controller.Client.{Client}
use egressgateway.Controller.Policy.{assign_and_update}
use egressgateway.Controller.Status.{
  update_egress_policy_status_if_need, update_egress_cluster_policy_status_if_need,
  update_gateway_status_with_usage, update_all_policy_status, clean_policy_status,
}

abbrev pub request_of : EgressPolicy → Request
request_of p = record { namespace = p.meta.namespace; name = p.meta.name }

module _ {S : Type 0} (client cli : Client S) (h : Host) where
  -- reAssignEgressPolicyIP
  unfoldable pub re_assign_egress_policy_ip : EgressGateway → EgressPolicy → M S EgressGateway
  unfolding assign_and_update
  re_assign_egress_policy_ip gateway policy =
      assign_and_update client cli h (update_egress_policy_status_if_need client) true
        (request_of policy) gateway policy

  -- reAssignEgressClusterPolicyIP, which leaves the gateway to be written by its caller
  unfoldable pub re_assign_egress_cluster_policy_ip :
      EgressGateway → EgressPolicy → M S EgressGateway
  unfolding assign_and_update
  re_assign_egress_cluster_policy_ip gateway policy =
      assign_and_update client cli h (update_egress_cluster_policy_status_if_need client) false
        (request_of policy) gateway policy

  -- the loops of checkAndUpdateAllPolicyIfNeedWhenFirstNodeReady over the policies of the gateway
  abbrev when_of_gateway :
      (EgressGateway → EgressPolicy → M S EgressGateway)
      → EgressGateway
      → EgressPolicy
      → M S EgressGateway
  when_of_gateway assign egw p =
      if p.spec.egress_gateway_name == egw.meta.name then assign egw p else go_on egw

  -- checkAndUpdateAllPolicyIfNeedWhenFirstNodeReady
  unfoldable pub check_and_update_all_policy : EgressGateway → M S EgressGateway
  unfolding re_assign_egress_policy_ip re_assign_egress_cluster_policy_ip fold_each
  check_and_update_all_policy egw = do
    cluster_policies ← or_fail true client.list_cluster_policies
    egw1 ← fold_each (when_of_gateway re_assign_egress_cluster_policy_ip) egw cluster_policies
    policies ← or_fail true client.list_policies
    fold_each (when_of_gateway re_assign_egress_policy_ip) egw1 policies

  -- how reconcileTunnel, reconcileNode and reconcileGateway end for a gateway: EIPs that lost
  -- their node move, if there are any
  unfoldable pub move_eips : EgressGateway → List Eips → M S (EgressGateway × List Eips)
  move_eips egw need_move_ips = or_fail true (
      lift (
        if nat_beq (length need_move_ips) 0
        then ok (egw, need_move_ips)
        else move_eip_to_ready_node egw need_move_ips))

  -- and what has changed is written
  unfoldable pub update_if : Bool → EgressGateway → List Eips → M S (Unit {0})
  update_if need_update egw need_move_ips =
      if need_update
      then (do
        g ← or_fail true (update_gateway_status_with_usage client h egw)
        or_fail true (update_all_policy_status client g)
        or_fail true (clean_policy_status client need_move_ips))
      else go_on tt

  unfoldable pub move_and_update : EgressGateway → List Eips → Bool → M S (Unit {0})
  unfolding move_eips update_if
  move_and_update egw need_move_ips need_update = do
    moved ← move_eips egw need_move_ips
    update_if need_update moved.0 moved.1

-- the index and the entry of the first node of that name
unfoldable pub find_node : ℕ → String → List EgressIpStatus → Option (ℕ × EgressIpStatus)
find_node i name [] = none
find_node i name (node ∷ nodes) =
    if node.name == name then some (i, node) else find_node (suc i) name nodes

-- append(nodes[:i], nodes[i+1:]...)
unfoldable pub remove_at : List EgressIpStatus → ℕ → List EgressIpStatus
remove_at [] i = []
remove_at (node ∷ nodes) zero = nodes
remove_at (node ∷ nodes) (suc i) = node ∷ remove_at nodes i

module _ {S : Type 0} (client cli : Client S) (h : Host) where
  -- case 1 of reconcileTunnel, for one gateway: the node goes, its EIPs move
  unfoldable pub remove_tunnel : String → EgressGateway → M S (Unit {0})
  unfolding move_and_update find_node remove_at
  remove_tunnel name egw = elim (find_node zero name egw.status.node_list) [
    | none ↦ move_and_update client cli h egw [] false
    | some (i, node) ↦
        move_and_update client cli h (with_nodes egw (remove_at egw.status.node_list i)) node.eips
          true
  ]

  abbrev with_status : String → EgressIpStatus → EgressIpStatus
  with_status status node = record node { status = status }

  abbrev without_eips : EgressIpStatus → EgressIpStatus
  without_eips node = record node { eips = [] }

  -- case 2.1: the tunnel is ready
  unfoldable pub tunnel_ready : String → EgressGateway → ℕ → EgressIpStatus → M S (Unit {0})
  unfolding move_and_update check_and_update_all_policy
  tunnel_ready phase egw i node =
      let egw1 = with_nodes egw (modify egw.status.node_list i (with_status phase)) in
      if Phase.is_not_equal phase node.status
      then ((if nat_beq (ready_count egw1.status) 1
            then check_and_update_all_policy client cli h egw1
            else go_on egw1)
          >>= λ egw2. move_and_update client cli h egw2 [] true)
      else move_and_update client cli h egw [] false

  -- case 2.2: the tunnel is not ready
  unfoldable pub tunnel_not_ready : String → EgressGateway → ℕ → EgressIpStatus → M S (Unit {0})
  unfolding move_and_update
  tunnel_not_ready phase egw i node =
      let has_eips = not (nat_beq (length node.eips) 0) in
      let differs = Phase.is_not_equal phase node.status in
      let nodes = egw.status.node_list in
      let nodes1 = if has_eips then modify nodes i without_eips else nodes in
      let nodes2 = if differs then modify nodes1 i (with_status phase) else nodes1 in
      move_and_update client cli h (with_nodes egw nodes2) node.eips (has_eips || differs)

  -- case 2, for one gateway
  unfoldable pub update_tunnel : String → EgressTunnel → EgressGateway → M S (Unit {0})
  unfolding tunnel_ready tunnel_not_ready move_and_update find_node
  update_tunnel name tunnel egw = elim (find_node zero name egw.status.node_list) [
    | none ↦ move_and_update client cli h egw [] false
    | some (i, node) ↦
        if tunnel.status.phase == Phase.ready
        then tunnel_ready tunnel.status.phase egw i node
        else tunnel_not_ready tunnel.status.phase egw i node
  ]

  -- reconcileTunnel
  unfoldable pub reconcile_tunnel : Request → M S (Unit {0})
  unfolding remove_tunnel update_tunnel for_each
  reconcile_tunnel req = do
    found ← or_not_found true (client.get_tunnel req.name)
    egws ← or_fail true cli.list_gateways
    elim found [
      | none ↦ for_each (remove_tunnel req.name) egws
      | some tunnel ↦
          if tunnel.meta.deleting
          then for_each (remove_tunnel req.name) egws
          else for_each (update_tunnel req.name tunnel) egws
    ]
    stop false
