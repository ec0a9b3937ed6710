-- ===== src/Controller/Dispatch.antt =====
-- pkg/utils/flat.go and the dispatch of pkg/egressgateway/egress_gateway.go: a request's namespace
-- carries the kind of the object, "kind/" or "kind/namespace".
use Prim.Native.String.{◌++◌}
use mathlib.Core.List.{List, [], ◌∷◌}
use egressgateway.Prelude.{String, false, ◌==◌, if◌then◌else◌, Result, ok, err, invalid_request}
use egressgateway.Prelude.Split.{split}
use egressgateway.Api.{ObjectMeta}
use egressgateway.Ip.Text.{Host}
use egressgateway.Gateway.Nodes.{Request}
use egressgateway.Controller.Flow.{M, ◌>>=◌, stop, lift, or_fail}
use egressgateway.Controller.Client.{Client, Labels}
use egressgateway.Controller.Policy.{reconcile_egress_policy, reconcile_egress_cluster_policy}
use egressgateway.Controller.Reassign.{reconcile_tunnel}
use egressgateway.Controller.Nodes.{reconcile_node}
use egressgateway.Controller.GatewaySync.{reconcile_gateway}

-- KindToMapFlat; path.Join of two names that are not empty and hold no dot or slash
unfoldable pub kind_to_map_flat : String → ObjectMeta → List Request
kind_to_map_flat kind obj =
    record {
      namespace = if obj.namespace == "" then kind ++ "/" else kind ++ ("/" ++ obj.namespace);
      name = obj.name;
    }
    ∷ []

-- ParseKindWithReq
unfoldable pub parse_parts : String → List String → Result (String × Request)
parse_parts name (kind ∷ namespace ∷ []) = ok (kind, record { namespace = namespace; name = name })
parse_parts name _ = err invalid_request

unfoldable pub parse_kind_with_req : Request → Result (String × Request)
unfolding parse_parts split
parse_kind_with_req req = parse_parts req.name (split b'/' req.namespace)

module _ {S : Type 0} (client cli : Client S) (labels : Labels) (h : Host) where
  -- the switch of Reconcile
  unfoldable pub reconcile_kind : String → Request → M S (Unit {0})
  reconcile_kind kind req =
      if kind == "EgressGateway"
      then reconcile_gateway client cli labels h req
      else if kind == "EgressClusterPolicy"
      then reconcile_egress_cluster_policy client cli h req
      else if kind == "EgressPolicy"
      then reconcile_egress_policy client cli h req
      else if kind == "Node"
      then reconcile_node client cli labels h req
      else if kind == "EgressTunnel"
      then reconcile_tunnel client cli h req
      else stop false

  -- Reconcile
  unfoldable pub reconcile : Request → M S (Unit {0})
  unfolding parse_kind_with_req reconcile_kind
  reconcile req = do
    parsed ← or_fail false (lift (parse_kind_with_req req))
    reconcile_kind parsed.0 parsed.1
