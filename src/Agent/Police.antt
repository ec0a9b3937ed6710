-- ===== src/Agent/Police.antt =====
-- Reconcile of pkg/agent/police.go with the reconcile functions of gateways, tunnels and policies,
-- the event predicates, and the requests that endpoint slices give.
use Prim.Native.String.{◌++◌}
use mathlib.Core.List.{List, [], ◌∷◌}
use egressgateway.Prelude.{
  ℕ, zero, suc, String, Bool, true, false, ◌==◌, if◌then◌else◌, Option, none, some, Result, ok, err,
  no_fuel,
}
use egressgateway.Api.{EgressIpStatus, Eips, ObjectMeta, Policy}
use egressgateway.Gateway.Nodes.{Request}
use egressgateway.Controller.Dispatch.{parse_kind_with_req}
use egressgateway.Controller.Flow.{Exec, ◌>>>◌, lift, M, ◌>>=◌, or_fail, or_not_found, stop}
use egressgateway.Endpoint.Objects.{Labels}
use egressgateway.Endpoint.Sync.{label_policy_name}
use egressgateway.Webhook.PolicyChecks.{PolicyObject}
use egressgateway.Agent.Apply.{same_policy, init_apply_policy}
use egressgateway.Agent.ClusterCidrs.{reconcile_cluster_info}
use egressgateway.Agent.PolicySets.{update_policy_ip_set}
use egressgateway.Agent.World.{Env, World, at_server}

-- the loops that look for the node of a policy: the last one that has it
unfoldable pub has_policy_of : Policy → List Policy → Bool
has_policy_of p [] = false
has_policy_of p (q ∷ qs) = let rest = has_policy_of p qs in if same_policy q p then true else rest

unfoldable pub eips_have : Policy → List Eips → Bool
unfolding has_policy_of
eips_have p [] = false
eips_have p (eip ∷ eips) =
    let rest = eips_have p eips in if has_policy_of p eip.policies then true else rest

unfoldable pub policy_node : Policy → List EgressIpStatus → String → String
unfolding eips_have
policy_node p [] node_name = node_name
policy_node p (node ∷ nodes) node_name =
    policy_node p nodes (if eips_have p node.eips then node.name else node_name)

-- the value of a label
unfoldable pub label_of : String → Labels → Option String
label_of key [] = none
label_of key (l ∷ ls) = let rest = label_of key ls in if l.0 == key then some l.1 else rest

-- enqueueEndpointSlice; path.Join of two names that are not empty and hold no dot or slash
unfoldable pub enqueue_endpoint_slice : ObjectMeta → List Request
unfolding label_of
enqueue_endpoint_slice obj = elim (label_of label_policy_name obj.labels) [
  | none ↦ []
  | some policy_name ↦
      record {
        namespace =
            if obj.namespace == ""
            then "EgressClusterPolicy/"
            else "EgressPolicy/" ++ obj.namespace;
        name = policy_name;
      }
      ∷ []
]

module _ {S : Type 0} (env : Env S) where
  abbrev pub server_flow : {X : Type 0} → M S X → M (World S) X
  server_flow m w = let r = m w.server in (r.0, record w { server = r.1 })

  -- reconcileGateway and reconcileTunnel
  unfoldable pub reconcile_gateway : Request → M (World S) (Unit {0})
  unfolding init_apply_policy
  reconcile_gateway req = or_fail true (init_apply_policy env) >>= λ _. stop false

  unfoldable pub reconcile_tunnel : Request → M (World S) (Unit {0})
  unfolding init_apply_policy
  reconcile_tunnel req = or_fail true (init_apply_policy env) >>= λ _. stop false

  -- reconcilePolicy and reconcileClusterPolicy, which differ in the object that they read
  abbrev pub sync_policy : PolicyObject → M (World S) (Unit {0})
  sync_policy policy =
      or_not_found true (at_server (env.client.get_gateway policy.spec.egress_gateway_name))
      >>= λ gateway. elim gateway [
        | none ↦ stop false
        | some egw ↦
            let p : Policy = record {
              name = policy.meta.name;
              namespace = policy.meta.namespace;
            } in
            or_fail true (
              update_policy_ip_set env p.namespace p.name
                (policy_node p egw.status.node_list "" == env.cfg.node_name) policy.dest_subnet)
            >>= λ _. stop false
      ]

  abbrev pub policy_found : Option PolicyObject → M (World S) (Unit {0})
  policy_found none = stop false
  policy_found (some policy) = if policy.meta.deleting then stop false else sync_policy policy

  unfoldable pub reconcile_policy : Request → M (World S) (Unit {0})
  unfolding policy_node update_policy_ip_set
  reconcile_policy req =
      or_not_found false (at_server (env.client.get_policy req.namespace req.name)) >>= policy_found

  unfoldable pub reconcile_cluster_policy : Request → M (World S) (Unit {0})
  unfolding policy_node update_policy_ip_set
  reconcile_cluster_policy req =
      or_not_found false (at_server (env.client.get_cluster_policy req.namespace req.name))
      >>= policy_found

  abbrev pub retried :
      Result (Unit {0}) × World S → Exec (World S) (Unit {0}) → Result (Unit {0}) × World S
  retried (err e, w) again = again w
  retried (r, w) again = (r, w)

  -- the loop of doOnce, which tries until it succeeds
  unfoldable pub redo_loop : ℕ → Exec (World S) (Unit {0})
  unfolding init_apply_policy
  redo_loop zero w = (no_fuel, w)
  redo_loop (suc fuel) w = let again = redo_loop fuel in retried (init_apply_policy env w) again

  unfoldable pub do_once : ℕ → Exec (World S) (Unit {0})
  unfolding redo_loop
  do_once fuel w =
      if w.done
      then (ok tt, w)
      else (redo_loop fuel >>> λ _ w'. (ok tt, record w' { done = true })) w

  -- the switch of Reconcile
  unfoldable pub reconcile_kind : String → Request → M (World S) (Unit {0})
  unfolding reconcile_gateway reconcile_tunnel reconcile_policy reconcile_cluster_policy
      reconcile_cluster_info
  reconcile_kind kind req =
      if kind == "EgressGateway"
      then reconcile_gateway req
      else if kind == "EgressClusterPolicy"
      then reconcile_cluster_policy req
      else if kind == "EgressPolicy"
      then reconcile_policy req
      else if kind == "EgressClusterInfo"
      then server_flow (reconcile_cluster_info env req)
      else if kind == "EgressTunnel"
      then reconcile_tunnel req
      else stop false

  -- Reconcile
  unfoldable pub reconcile : ℕ → Request → M (World S) (Unit {0})
  unfolding do_once parse_kind_with_req reconcile_kind
  reconcile fuel req = or_fail false (do_once fuel) >>= λ _.
      or_fail false (lift (parse_kind_with_req req)) >>= λ parsed. reconcile_kind parsed.0 parsed.1
