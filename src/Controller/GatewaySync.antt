-- ===== src/Controller/GatewaySync.antt =====
-- pkg/egressgateway/egress_gateway.go: reconcileGateway.
use egressgateway.Prelude.{
  ◌*◌, ℕ, suc, zero, ◌+◌, String, Bool, true, false, not, ◌||◌, ◌&&◌, List, [], ◌∷◌, ◌++◌, ◌==◌,
  Option, none, some, get_elem?, nat_beq, length, modify, if◌then◌else◌,
}
use egressgateway.Prelude.Int.{ℤ, pos, negsuc}
use egressgateway.Api.{count_ready, EgressGateway, EgressPolicy, EgressIpStatus, Eips, Node}
use egressgateway.Api.Phase
use egressgateway.Ip.Text.{Host}
use egressgateway.Ip.Range.{has_mark, delete_mark, add_mark}
use egressgateway.Gateway.Nodes.{Request, with_nodes}
use egressgateway.Controller.Flow.{
  Exec, M, ◌>>>◌, pure, out_of_fuel, ◌>>=◌, ◌>>◌, go_on, stop, lift, or_fail, or_not_found,
  fold_each,
}
use egressgateway.Controller.Client.{Client, Labels}
use egressgateway.Controller.Reassign.{check_and_update_all_policy, move_eips, update_if, remove_at}
use egressgateway.Controller.Nodes.{new_node, tunnel_status}

-- the finalizer of a gateway
abbrev pub egress_gateway_finalizers : String
egress_gateway_finalizers = "egressgateway.spidernet.io/egressgateway"

-- utils.RemoveFinalizers of one finalizer: its last occurrence goes
unfoldable pub remove_finalizer : String → List String → List String
unfolding has_mark
remove_finalizer f [] = []
remove_finalizer f (g ∷ gs) =
    let rest = remove_finalizer f gs in
    if has_mark f gs then g ∷ rest else if g == f then gs else g ∷ gs

-- what the loop of reconcileGateway over the nodes changes
pub record Sync : Type 0 where
  pub nodes : List EgressIpStatus
  pub keys : List String
  pub need_move : List Eips
  pub need_update : Bool

module _ {S : Type 0} (client cli : Client S) (labels : Labels) (h : Host) where
  -- getPolicyCountByGatewayName: the second list is read into the variable of the first, so the
  -- loop over the cluster policies runs over an empty list
  unfoldable pub count_policies : String → List EgressPolicy → ℕ
  count_policies name [] = 0
  count_policies name (p ∷ ps) =
      if p.spec.egress_gateway_name == name
      then suc (count_policies name ps)
      else count_policies name ps

  unfoldable pub get_policy_count_by_gateway_name : String → Exec S ℕ
  unfolding count_policies
  get_policy_count_by_gateway_name name = client.list_policies >>> λ policies.
      client.list_policies >>> λ _. pure (count_policies name policies + count_policies name [])

  -- case 1 of reconcileGateway: the gateway is deleted
  unfoldable pub gateway_deleted : String → Option EgressGateway → M S (Unit {0})
  unfolding get_policy_count_by_gateway_name remove_finalizer
  gateway_deleted name found = or_fail true (get_policy_count_by_gateway_name name) >>= λ count.
      elim found [
        | none ↦ stop false
        | some egw ↦
            (if nat_beq count 0 && not (egw.meta.name == "")
              then or_fail true (
                  client.update_gateway (record egw {
                    meta = record (egw.meta) {
                      finalizers = remove_finalizer egress_gateway_finalizers egw.meta.finalizers;
                    };
                  }))
              else go_on tt)
            >> stop false
      ]

  -- one round of the loop `for i := 0; i < len(NodeList); `: the next i and what has changed.
  -- Where the tunnel is not there, `continue` leaves i as it is.
  unfoldable pub sync_round : ℕ → EgressIpStatus → Sync → M S (ℕ × Sync)
  unfolding has_mark delete_mark remove_at
  sync_round i node y =
      if has_mark node.name y.keys
      then (or_not_found false (client.get_tunnel node.name) >>= λ found.
          let keys = delete_mark node.name y.keys in
          elim found [
            | none ↦
                if Phase.is_not_equal Phase.pending node.status
                then go_on (
                  i,
                  record {
                    nodes = modify y.nodes i (λ n. record n { status = Phase.pending; eips = [] });
                    keys = keys;
                    need_move = y.need_move ++ node.eips;
                    need_update = true;
                  },
                )
                else go_on (i, record y { keys = keys })
            | some tunnel ↦
                if Phase.is_not_equal tunnel.status.phase node.status
                then go_on (
                  suc i,
                  record y {
                    nodes = modify y.nodes i (λ n. record n { status = Phase.pending });
                    keys = keys;
                    need_update = true;
                  },
                )
                else go_on (suc i, record y { keys = keys })
          ])
      else go_on (
        i,
        record {
          nodes = remove_at y.nodes i;
          keys = y.keys;
          need_move = y.need_move ++ node.eips;
          need_update = true;
        },
      )

  unfoldable pub sync_loop : ℕ → ℕ → Sync → M S Sync
  unfolding sync_round
  sync_loop zero i y s = (out_of_fuel, s)
  sync_loop (suc fuel) i y s =
      let rest = λ (r : ℕ × Sync). sync_loop fuel r.0 r.1 in
      elim (get_elem? y.nodes i) [ none ↦ go_on y s | some node ↦ (sync_round i node y >>= rest) s ]

  -- a node that matches and is not in the list joins it
  unfoldable pub add_node : List EgressIpStatus → String → M S (List EgressIpStatus)
  unfolding tunnel_status
  add_node nodes name = tunnel_status client cli labels h name >>= λ status.
      go_on (nodes ++ new_node name status ∷ [])

  abbrev is_zero : ℤ → Bool
  is_zero (pos n) = nat_beq n 0
  is_zero (negsuc n) = false

  abbrev pub first_usage : EgressGateway → Bool
  first_usage egw =
      (is_zero egw.status.ip_usage.ipv4_total && not (nat_beq (length egw.spec.ippools.ipv4) 0))
      || (is_zero egw.status.ip_usage.ipv6_total || not (nat_beq (length egw.spec.ippools.ipv6) 0))

  -- the names of the nodes that match, each once
  abbrev name_set : List Node → List String
  name_set [] = []
  name_set (node ∷ nodes) = add_mark node.meta.name (name_set nodes)

  -- case 2 of reconcileGateway: the nodes of the list and the nodes that match are brought together
  unfoldable pub gateway_present : EgressGateway → M S (Unit {0})
  unfolding sync_loop add_node check_and_update_all_policy move_eips update_if fold_each add_mark
  gateway_present egw = do
    _ ← or_fail false (lift (labels.as_selector egw.spec.node_selector.selector))
    k8s_nodes ← or_fail false (client.list_nodes egw.spec.node_selector.selector)
    let nodes = egw.status.node_list
    y ←
        sync_loop (2 * length nodes + 1) 0
          (record { nodes = nodes; keys = name_set k8s_nodes; need_move = []; need_update = false })
    let before_ready_count = count_ready 0 y.nodes
    nodes' ← fold_each add_node y.nodes (h.runtime.range_keys y.keys)
    moved ← move_eips client cli h (with_nodes egw nodes') y.need_move
    egw' ←
        if nat_beq before_ready_count 0
        then check_and_update_all_policy client cli h moved.0
        else go_on moved.0
    let need_update = y.need_update || not (nat_beq (length y.keys) 0) || first_usage egw'
    update_if client cli h need_update egw' moved.1

  -- reconcileGateway
  unfoldable pub reconcile_gateway : Request → M S (Unit {0})
  unfolding gateway_deleted gateway_present
  reconcile_gateway req = do
    found ← or_not_found true (cli.get_gateway req.name)
    elim found [
      | none ↦ gateway_deleted req.name none
      | some egw ↦
          if egw.meta.deleting
          then gateway_deleted req.name (some egw)
          else gateway_present egw >> stop false
    ]
