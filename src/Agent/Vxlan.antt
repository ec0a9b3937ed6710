-- ===== src/Agent/Vxlan.antt =====
-- pkg/agent/vxlan.go: the peers of this node, its status, and Reconcile.
use egressgateway.Prelude.{
  ℕ, zero, suc, String, Bool, true, false, not, ◌&&◌, ◌||◌, ◌==◌, nat_beq, if◌then◌else◌, List, [],
  ◌∷◌, map, Option, none, some, Result, ok, err, no_fuel,
}
use egressgateway.Prelude.Int.{ℤ, pos}
use egressgateway.Api.{EgressGateway, EgressIpStatus, EgressTunnel, Parent}
use egressgateway.Api.Phase.{ready, node_not_ready}
use egressgateway.Ip.Address.{Ip, is_to4}
use egressgateway.Ip.Range.{has_mark}
use egressgateway.Tunnel.Release.{is_to16}
use egressgateway.Gateway.Nodes.{Request}
use egressgateway.Controller.Dispatch.{parse_kind_with_req}
use egressgateway.Controller.Flow.{Exec, ◌>>>◌, lift, pure, each}
use egressgateway.Agent.Peers.{
  Peer, PeerMap, delete_peer, store_peer, ParentLink, Neigh, Env, World, at_server,
  parse_mark_to_int, list_neigh, add_neigh, del_neigh, parse_vtep, version,
}
use egressgateway.Agent.Routes.{ensure, new_rule_route}
use egressgateway.Agent.World.{or_logged, or_missing}

module _ {S : Type 0} (env : Env S) where
  -- an error that is only logged
  abbrev logged : {A : Type 0} → Exec S A → Exec S (Unit {0})
  logged m s = ((λ t. or_logged (m t)) >>> λ _. pure tt) s

  abbrev ensure_peer : Peer → Exec S (Unit {0})
  ensure_peer peer = logged (
      ensure env.netlink env.text new_rule_route env.cfg.vxlan_name peer.ipv4 peer.ipv6 peer.mark
        peer.mark)

  -- ensureRoute: the peers of the other nodes, the neighbors that are not of one of them, and the
  -- loops
  unfoldable pub other_peers : PeerMap → PeerMap
  other_peers [] = []
  other_peers (p ∷ ps) =
      let rest = other_peers ps in if p.0 == env.cfg.node_name then rest else p ∷ rest

  abbrev del_unexpected : Option ℕ → List String → Neigh → Exec S (Unit {0})
  del_unexpected link expected item =
      if has_mark (env.hardware_addr item.hardware_addr) expected
      then pure tt
      else logged (del_neigh env link item)

  unfoldable pub ensure_route : Option ℕ → PeerMap → Exec S (Unit {0})
  unfolding other_peers each
  ensure_route link peer_map =
      let peers = env.range (other_peers peer_map) in
      list_neigh env link >>> λ neigh_list.
      each (del_unexpected link (map (λ p. env.hardware_addr p.1.mac) peers)) neigh_list >>> λ _.
      each (λ p. logged (add_neigh env link p.1)) peers

  -- updateTunnelStatus: the object that the server answers
  unfoldable pub update_tunnel_status : EgressTunnel → Exec (World S) EgressTunnel
  update_tunnel_status tunnel w =
      (at_server (
            env.client.update_status (record tunnel {
              status = record tunnel.status { last_heartbeat_time = env.client.now w.server };
            }))
          >>> λ t w'. (ok t, record w' { update_timer = env.cfg.tunnel_update_period }))
        w

  -- updateEgressTunnelStatus: the parent, the phase, and the tunnel after them
  abbrev pub parent_of : ParentLink → ℕ → Parent
  parent_of parent v =
      let ip = env.text.ip_string parent.ip in
      if nat_beq v 4
      then record { name = parent.name; ipv4 = ip; ipv6 = "" }
      else record { name = parent.name; ipv4 = ""; ipv6 = ip }

  abbrev pub same_parent : Parent → Parent → Bool
  same_parent p q = p.name == q.name && (p.ipv4 == q.ipv4 && p.ipv6 == q.ipv6)

  abbrev pub turns_ready : EgressTunnel → Bool
  turns_ready tunnel = elim (parse_vtep env tunnel.status) [
    | none ↦ false
    | some vtep ↦ not (tunnel.status.phase == ready) && not (tunnel.status.phase == node_not_ready)
  ]

  abbrev pub with_parent : EgressTunnel → Parent → EgressTunnel
  with_parent tunnel parent = record tunnel {
    status = record tunnel.status {
      tunnel = record tunnel.status.tunnel { parent = parent };
      phase = if turns_ready tunnel then ready else tunnel.status.phase;
    };
  }

  abbrev pub set_parent : EgressTunnel → ℕ → ParentLink → Exec (World S) EgressTunnel
  set_parent tunnel v parent =
      let new = parent_of parent v in
      if not (same_parent tunnel.status.tunnel.parent new) || turns_ready tunnel
      then update_tunnel_status (with_parent tunnel new)
      else pure (with_parent tunnel new)

  -- with a tunnel, and for this node's when it is nil
  unfoldable pub update_egress_tunnel_status : EgressTunnel → ℕ → Exec (World S) EgressTunnel
  unfolding update_tunnel_status parse_vtep
  update_egress_tunnel_status tunnel v =
      at_server (env.get_parent v) >>> λ parent. set_parent tunnel v parent

  unfoldable pub update_own_status : ℕ → Exec (World S) (Unit {0})
  unfolding update_tunnel_status parse_vtep
  update_own_status v = at_server (env.get_parent v) >>> λ parent.
      at_server (λ s. or_missing (env.client.get_tunnel env.cfg.node_name s)) >>> λ found.
      elim found [ none ↦ pure tt | some tunnel ↦ (set_parent tunnel v parent >>> λ _. pure tt) ]

  -- ensureEgressTunnelStatus
  abbrev pub lacks_parent : EgressTunnel → Bool
  lacks_parent node =
      (nat_beq (version env) 4 && node.status.tunnel.parent.ipv4 == "")
      || (nat_beq (version env) 6 && node.status.tunnel.parent.ipv6 == "")

  abbrev pub store_vtep : String → Option Peer → World S → World S
  store_vtep name none w = w
  store_vtep name (some vtep) w = record w { peer_map = store_peer name vtep w.peer_map }

  unfoldable pub ensure_egress_tunnel_status : EgressTunnel → Exec (World S) (Unit {0})
  unfolding update_egress_tunnel_status parse_vtep delete_peer
  ensure_egress_tunnel_status node =
      (if lacks_parent node then update_egress_tunnel_status node (version env) else pure node)
      >>> λ tunnel w. (ok tt, store_vtep env.cfg.node_name (parse_vtep env tunnel.status) w)

  -- initTunnelPeerMap: the tunnels that are ready
  unfoldable pub store_ready : List EgressTunnel → World S → World S
  unfolding parse_vtep delete_peer
  store_ready [] w = w
  store_ready (item ∷ items) w = store_ready items (
      if item.status.phase == ready
      then store_vtep env.cfg.node_name (parse_vtep env item.status) w
      else w)

  unfoldable pub init_tunnel_peer_map : Exec (World S) (Unit {0})
  unfolding store_ready
  init_tunnel_peer_map =
      at_server env.client.list_tunnels >>> λ items w. (ok tt, store_ready items w)

  -- reconcileEgressTunnel: the peer that a tunnel gives, if it is ready
  abbrev pub if_is : (Ip → Bool) → Ip → Option Ip
  if_is is_version ip = if is_version ip then some ip else none

  abbrev pub mark_or_zero : Result ℤ → ℤ
  mark_or_zero (ok m) = m
  mark_or_zero _ = pos 0

  unfoldable pub peer_of : EgressTunnel → Option Peer
  unfolding parse_mark_to_int
  peer_of node =
      let t = node.status.tunnel in
      let ip = if nat_beq (version env) 4 then t.parent.ipv4 else t.parent.ipv6 in
      if ip == "" then none else elim (env.parse_mac t.mac) [
        | none ↦ none
        | some mac ↦ some (record {
          ipv4 = if_is is_to4 (env.text.parse_ip t.ipv4);
          ipv6 = if_is is_to16 (env.text.parse_ip t.ipv6);
          parent = env.text.parse_ip ip;
          mac = mac;
          mark = mark_or_zero (parse_mark_to_int node.status.mark);
        })
      ]

  abbrev pub ensure_routes : Exec (World S) (Unit {0})
  ensure_routes w = at_server (logged (ensure_route w.link w.peer_map)) w

  abbrev pub drop_tunnel : String → Exec (World S) (Unit {0})
  drop_tunnel name w =
      if name == env.cfg.node_name
      then (ok tt, w)
      else ensure_routes (record w { peer_map = delete_peer name w.peer_map })

  abbrev pub keep_peer : EgressTunnel → Option Peer → Exec (World S) (Unit {0})
  keep_peer node none w = (ok tt, w)
  keep_peer node (some peer) w =
      (ensure_routes >>> λ _. at_server (ensure_peer peer))
        (record w { peer_map = store_peer node.meta.name peer w.peer_map })

  abbrev pub tunnel_found : String → Option EgressTunnel → Exec (World S) (Unit {0})
  tunnel_found name none = drop_tunnel name
  tunnel_found name (some node) =
      if node.meta.deleting
      then drop_tunnel name
      else if name == env.cfg.node_name
      then ensure_egress_tunnel_status node
      else keep_peer node (peer_of node)

  unfoldable pub reconcile_egress_tunnel : Request → Exec (World S) (Unit {0})
  unfolding ensure_route ensure_egress_tunnel_status peer_of delete_peer
  reconcile_egress_tunnel req =
      at_server (λ s. or_missing (env.client.get_tunnel req.name s)) >>> tunnel_found req.name

  -- reconcileEgressGateway: the nodes of the gateway, and the loop over the peers
  abbrev pub node_names : Option EgressGateway → List String
  node_names none = []
  node_names (some egw) = map (λ (n : EgressIpStatus). n.name) egw.status.node_list

  abbrev pub ensure_if_in : List String → String × Peer → Exec S (Unit {0})
  ensure_if_in names p = if has_mark p.0 names then ensure_peer p.1 else pure tt

  unfoldable pub reconcile_egress_gateway : Request → Exec (World S) (Unit {0})
  unfolding each
  reconcile_egress_gateway req =
      at_server (λ s. or_missing (env.client.get_gateway req.name s)) >>> λ egw w.
      at_server (each (ensure_if_in (node_names egw)) (env.range w.peer_map)) w

  -- doOnce, whose loop tries until it succeeds, and Reconcile
  abbrev retried :
      Result (Unit {0}) × World S → Exec (World S) (Unit {0}) → Result (Unit {0}) × World S
  retried (err e, w) again = again w
  retried (r, w) again = (r, w)

  unfoldable pub redo_loop : ℕ → Exec (World S) (Unit {0})
  unfolding init_tunnel_peer_map
  redo_loop zero w = (no_fuel, w)
  redo_loop (suc fuel) w = let again = redo_loop fuel in retried (init_tunnel_peer_map w) again

  abbrev do_once : ℕ → Exec (World S) (Unit {0})
  do_once fuel w =
      if w.done
      then (ok tt, w)
      else (redo_loop fuel >>> λ _ w'. (ok tt, record w' { done = true })) w

  unfoldable pub reconcile : ℕ → Request → Exec (World S) (Unit {0})
  unfolding redo_loop parse_kind_with_req reconcile_egress_tunnel reconcile_egress_gateway
  reconcile fuel req = lift (parse_kind_with_req req) >>> λ parsed. do_once fuel >>> λ _.
      if parsed.0 == "EgressTunnel"
      then reconcile_egress_tunnel parsed.1
      else if parsed.0 == "EgressGateway"
      then reconcile_egress_gateway parsed.1
      else pure tt
