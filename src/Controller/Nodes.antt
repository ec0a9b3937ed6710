-- ===== src/Controller/Nodes.antt =====
-- pkg/egressgateway/egress_gateway.go: reconcileNode.
use egressgateway.Prelude.{zero, String, true, false, [], ◌∷◌, ◌++◌, none, some, if◌then◌else◌}
use egressgateway.Api.{EgressGateway, EgressIpStatus, Node}
use egressgateway.Api.Phase
use egressgateway.Ip.Text.{Host}
use egressgateway.Gateway.Nodes.{Request, with_nodes}
use egressgateway.Controller.Flow.{
  M, ◌>>=◌, ◌>>◌, go_on, stop, lift, or_fail, or_not_found, for_each,
}
use egressgateway.Controller.Client.{Client, Labels}
use egressgateway.Controller.Reassign.{
  check_and_update_all_policy, move_and_update, find_node, remove_at,
}

abbrev pub new_node : String → String → EgressIpStatus
new_node name status = record { name = name; eips = []; status = status }

module _ {S : Type 0} (client cli : Client S) (labels : Labels) (h : Host) where
  -- the phase of the node's tunnel, or Pending without a tunnel
  unfoldable pub tunnel_status : String → M S String
  tunnel_status name = or_not_found false (client.get_tunnel name) >>= λ found. elim found [
    | none ↦ go_on Phase.pending
    | some tunnel ↦ go_on tunnel.status.phase
  ]

  -- case 2.1 of reconcileNode: the labels match
  unfoldable pub node_matches : String → EgressGateway → M S (Unit {0})
  unfolding tunnel_status check_and_update_all_policy move_and_update find_node
  node_matches name egw = elim (find_node zero name egw.status.node_list) [
    | some _ ↦ move_and_update client cli h egw [] false
    | none ↦ do
      status ← tunnel_status name
      egw1 ←
          check_and_update_all_policy client cli h
            (with_nodes egw (egw.status.node_list ++ new_node name status ∷ []))
      move_and_update client cli h egw1 [] true
  ]

  -- case 2.2: they do not
  unfoldable pub node_differs : String → EgressGateway → M S (Unit {0})
  unfolding move_and_update find_node remove_at
  node_differs name egw = elim (find_node zero name egw.status.node_list) [
    | none ↦ move_and_update client cli h egw [] false
    | some (i, item) ↦
        move_and_update client cli h (with_nodes egw (remove_at egw.status.node_list i)) item.eips
          true
  ]

  unfoldable pub update_node : Node → EgressGateway → M S (Unit {0})
  unfolding node_matches node_differs
  update_node node egw = do
    selector ← or_fail false (lift (labels.as_selector egw.spec.node_selector.selector))
    if selector node.meta.labels
        then node_matches node.meta.name egw
        else node_differs node.meta.name egw

  -- reconcileNode
  unfoldable pub reconcile_node : Request → M S (Unit {0})
  unfolding update_node for_each
  reconcile_node req = do
    found ← or_not_found true (client.get_node req.name)
    elim found [
      | none ↦ stop false
      | some node ↦
          if node.meta.deleting
          then stop false
          else (or_fail true cli.list_gateways >>= λ egws.
              for_each (update_node node) egws >> stop false)
    ]
