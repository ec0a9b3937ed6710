-- ===== src/Tunnel/Reconcile.antt =====
-- pkg/controller/tunnel/egress_tunnel.go: Reconcile, reconcileEGN and reconcileNode.
use egressgateway.Prelude.{
  ℕ, zero, suc, String, Bool, true, false, not, ◌==◌, ◌&&◌, if◌then◌else◌, List, [], ◌∷◌, none,
  some, ok, no_fuel,
}
use egressgateway.Api.{EgressTunnel, Node, NodeCondition}
use egressgateway.Api.Phase
use egressgateway.Gateway.Nodes.{Request}
use egressgateway.Controller.Flow.{Exec, M, ◌>>=◌, ◌>>◌, go_on, stop, lift, or_fail, or_not_found}
use egressgateway.Controller.GatewaySync.{remove_finalizer}
use egressgateway.Controller.Dispatch.{parse_kind_with_req}
use egressgateway.Tunnel.World.{Env, call}
use egressgateway.Tunnel.Update.{with_phase, update_egress_tunnel}
use egressgateway.Tunnel.Keep.{W, keep_egress_tunnel}
use egressgateway.Tunnel.Release.{
  egress_tunnel_finalizers, release_egress_tunnel, delete_egress_tunnel, create_egress_tunnel,
}
use egressgateway.Tunnel.Rebuild.{init_egress_tunnel, tried}

-- the phase that the conditions of a node give
unfoldable pub phase_of : String → List NodeCondition → String
phase_of phase [] = phase
phase_of phase (c ∷ cs) =
    phase_of (if c.type == "Ready" && not (c.status == "True") then Phase.node_not_ready else phase)
      cs

module _ {S A B : Type 0} (env : Env S A B) where
  -- the phase of a tunnel follows its node, unless its heartbeat has stopped
  unfoldable pub follow_node : Node → EgressTunnel → M (W env) (Unit {0})
  unfolding phase_of
  follow_node node tunnel =
      let phase = phase_of Phase.ready node.conditions in
      if not env.failover
        && (not (tunnel.status.phase == Phase.heartbeat_timeout)
            && not (tunnel.status.phase == phase))
      then or_fail true (update_egress_tunnel env (with_phase tunnel phase))
      else go_on tt

  unfoldable pub node_gone : String → M (W env) (Unit {0})
  node_gone name = or_not_found true (call (env.client.get_tunnel name)) >>= λ found. elim found [
    | none ↦ stop false
    | some tunnel ↦ or_fail true (delete_egress_tunnel env tunnel) >> stop false
  ]

  unfoldable pub node_present : Node → String → M (W env) (Unit {0})
  unfolding follow_node
  node_present node name = or_not_found true (call (env.client.get_tunnel name)) >>= λ found.
      elim found [
        | none ↦ or_fail true (create_egress_tunnel env node.meta.name) >> stop false
        | some tunnel ↦ follow_node node tunnel >> stop false
      ]

  -- reconcileNode
  unfoldable pub reconcile_node : Request → M (W env) (Unit {0})
  unfolding node_gone node_present
  reconcile_node req = or_not_found true (call (env.client.get_node req.name)) >>= λ found.
      elim found [
        | none ↦ node_gone req.name
        | some node ↦ if node.meta.deleting then node_gone req.name else node_present node req.name
      ]

  abbrev pub without_finalizer : EgressTunnel → EgressTunnel
  without_finalizer tunnel = record tunnel {
    meta = record (tunnel.meta) {
      finalizers = remove_finalizer egress_tunnel_finalizers tunnel.meta.finalizers;
    };
  }

  abbrev has_none : List String → Bool
  has_none [] = true
  has_none (f ∷ fs) = false

  -- a tunnel that is being deleted is released; a node that is still there gets a new one
  unfoldable pub tunnel_deleted : Request → EgressTunnel → M (W env) (Unit {0})
  unfolding reconcile_node
  tunnel_deleted req tunnel =
      if has_none tunnel.meta.finalizers
      then stop false
      else or_fail true (
          release_egress_tunnel env tunnel
            (call (env.client.update_tunnel (without_finalizer tunnel))))
        >> reconcile_node req

  -- reconcileEGN
  unfoldable pub reconcile_egn : Request → M (W env) (Unit {0})
  unfolding tunnel_deleted
  reconcile_egn req = or_not_found true (call (env.client.get_tunnel req.name)) >>= λ found.
      elim found [
        | none ↦ stop false
        | some tunnel ↦
            if tunnel.meta.deleting
            then tunnel_deleted req tunnel
            else or_fail true (keep_egress_tunnel env tunnel) >> stop false
      ]

  -- `redo:` the caches are built until it succeeds
  unfoldable pub init_loop : ℕ → Exec (W env) (Unit {0})
  init_loop zero w = (no_fuel, w)
  init_loop (suc fuel) w =
      let again = init_loop fuel in tried env (init_egress_tunnel env fuel w) again

  -- r.doOnce.Do
  unfoldable pub do_once : ℕ → Bool → Exec (W env) (Unit {0})
  unfolding init_loop
  do_once fuel true w = (ok tt, w)
  do_once fuel false w = init_loop fuel w

  unfoldable pub reconcile_kind : String → Request → M (W env) (Unit {0})
  unfolding reconcile_egn reconcile_node
  reconcile_kind kind req =
      if kind == "EgressTunnel"
      then reconcile_egn req
      else if kind == "Node"
      then reconcile_node req
      else stop false

  -- Reconcile, the first one with the caches still to build
  unfoldable pub reconcile : ℕ → Bool → Request → M (W env) (Unit {0})
  unfolding do_once reconcile_kind
  reconcile fuel done req = or_fail false (lift (parse_kind_with_req req)) >>= λ parsed.
      or_fail false (do_once fuel done) >> reconcile_kind parsed.0 parsed.1
