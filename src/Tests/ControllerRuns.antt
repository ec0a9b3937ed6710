-- ===== src/Tests/ControllerRuns.antt =====
-- The theorems on the loop of reconcileGateway, with an API server that holds a list of tunnels.
use egressgateway.Prelude.{
  ◌+◌, ◌*◌, ◌≡◌, ◌≢◌, refl, String, true, false, ◌==◌, if◌then◌else◌, List, [], ◌∷◌, ◌⊎◌, inl, inr,
  Option, none, some, ok, err, Error, Option-cases, length, Result, arith,
}
use egressgateway.Api.{EgressGateway, EgressPolicy, EgressTunnel}
use egressgateway.Ip.Range.{has_mark}
use egressgateway.Ip.Address.{cmp, next_ip}
use egressgateway.Ip.Range.{parse_ip_range, parse_ip_ranges, range_loop, ips_diff_set}
use egressgateway.Ip.Cidr.{put_ip, convert_cidr_or_iprange_to_ips}
use egressgateway.Ip.Merge.{merge_ip_ranges}
use mathlib.Core.List.{filter_map}
use egressgateway.Gateway.Lookup.{AssignedIp, get_assigned_ip}
use egressgateway.Gateway.Nodes.{keep_best}
use egressgateway.Gateway.Assign.{assign_ip}
use egressgateway.Gateway.Recorded.{as_read}
use egressgateway.Controller.Policy.{assign_and_update}
use egressgateway.Controller.Records.{assign_and_update-records}
use egressgateway.Controller.Flow.{Exec, next, out_of_fuel}
use egressgateway.Controller.Client.{Client, Labels}
use egressgateway.Controller.GatewaySync.{Sync, sync_loop}
use egressgateway.Controller.SyncEnds.{sync_loop_enough}
use egressgateway.Controller.Lost.{sync_loop-lost}
use egressgateway.Ip.Range.{delete_mark}
use egressgateway.Tests.Clusters.{
  gateway, cluster, mail, second_eip, by_rr, toy_host, node1, node2, node3,
}
use egressgateway.Tests.Texts.{tally_host}

abbrev Server : Type 0
Server = List EgressTunnel

unfoldable find_tunnel : String → Server → Option EgressTunnel
find_tunnel name [] = none
find_tunnel name (t ∷ ts) =
    let rest = find_tunnel name ts in if t.meta.name == name then some t else rest

abbrev found : {A : Type 0} → Option A → Result A
found none = err Error.not_found
found (some a) = ok a

-- it answers for tunnels only
abbrev server : Client Server
server = record {
  get_gateway = λ name s. (err Error.not_found, s);
  list_gateways = λ s. (ok [], s);
  update_gateway = λ g s. (err Error.not_found, s);
  update_gateway_status = λ g s. (err Error.not_found, s);
  get_policy = λ ns name s. (err Error.not_found, s);
  list_policies = λ s. (ok [], s);
  update_policy = λ p s. (err Error.not_found, s);
  update_policy_status = λ p s. (err Error.not_found, s);
  get_cluster_policy = λ ns name s. (err Error.not_found, s);
  list_cluster_policies = λ s. (ok [], s);
  update_cluster_policy_status = λ p s. (err Error.not_found, s);
  get_node = λ name s. (err Error.not_found, s);
  list_nodes = λ l s. (ok [], s);
  get_tunnel = λ name s. (found (find_tunnel name s), s);
}

abbrev any_labels : Labels
any_labels = record { as_selector = λ s. ok (λ l. true) }

answers :
    (name : String) (s : Server)
    → ((s' : Server) × (t : EgressTunnel) × (server.get_tunnel name s ≡ (ok t, s')))
      ⊎ ((s' : Server) × (x : Error) × (server.get_tunnel name s ≡ (err x, s')))
answers name s = elim (Option-cases (find_tunnel name s)) [
  | inl e ↦ inr (s, Error.not_found, ground (arith, e))
  | inr (t, e) ↦ inl (s, t, ground (arith, e))
]

abbrev tunnels : Server
tunnels =
    record {
      meta = record {
        name = "node2";
        namespace = "";
        labels = [];
        finalizers = [];
        deleting = false;
      };
      status = record {
        tunnel = record {
          ipv4 = "";
          ipv6 = "";
          mac = "";
          parent = record { name = ""; ipv4 = ""; ipv6 = "" };
        };
        phase = "Ready";
        mark = [];
        last_heartbeat_time = 0;
      };
    }
    ∷ []

abbrev sync : Sync
sync = record {
  nodes = node1 ∷ node2 ∷ node3 ∷ [];
  keys = "node1" ∷ "node2" ∷ [];
  need_move = [];
  need_update = false;
}

sync_loop_enough_example :
    (sync_loop server server any_labels tally_host (2 * length sync.nodes + 1) 0 sync tunnels).0
    ≢ out_of_fuel
sync_loop_enough_example = sync_loop_enough server server any_labels tally_host answers sync tunnels

no_tunnel : server.get_tunnel "node1" tunnels ≡ (err Error.not_found, tunnels)
unfolding find_tunnel
no_tunnel = refl

marked : has_mark "node1" sync.keys ≡ true
unfolding has_mark
marked = refl

sync_loop-lost_example :
    sync_loop server server any_labels tally_host 6 0 sync tunnels
    ≡ sync_loop server server any_labels tally_host 4 0
        (record {
          nodes = node2 ∷ node3 ∷ [];
          keys = delete_mark "node1" sync.keys;
          need_move = node1.eips;
          need_update = true;
        })
        tunnels
sync_loop-lost_example =
    sync_loop-lost server server any_labels tally_host 4 [] (node2 ∷ node3 ∷ []) node1 sync tunnels
      tunnels refl marked no_tunnel

abbrev policy : EgressPolicy
policy = record {
  meta = record {
    name = "mail";
    namespace = "default";
    labels = [];
    finalizers = [];
    deleting = false;
  };
  spec = record { egress_gateway_name = "egw"; egress_ip = by_rr };
  status = record { eip = record { ipv4 = ""; ipv6 = "" }; node = "" };
}

abbrev with_mail : EgressGateway
with_mail = gateway (node1 ∷ record node2 { eips = second_eip ∷ [] } ∷ node3 ∷ [])

abbrev no_update : EgressPolicy → AssignedIp → Exec Server (Unit {0})
no_update p a s = (ok tt, s)

policy_runs :
    assign_and_update server server toy_host no_update false mail cluster policy tunnels
    ≡ (next with_mail, tunnels)
unfolding assign_and_update assign_ip get_assigned_ip merge_ip_ranges convert_cidr_or_iprange_to_ips
    parse_ip_ranges ips_diff_set parse_ip_range cmp range_loop next_ip filter_map put_ip keep_best
policy_runs = refl

assign_and_update-records_example :
    (a : AssignedIp) × (get_assigned_ip with_mail "default" "mail" ≡ some a)
    × ((get_assigned_ip cluster "default" "mail" ≡ some a)
        ⊎ ((b : AssignedIp) × (g1 : EgressGateway) × (a ≡ as_read b)
            × (assign_ip toy_host cluster mail by_rr ≡ ok (some b, g1))))
assign_and_update-records_example =
    assign_and_update-records server server toy_host no_update false mail cluster policy with_mail
      tunnels tunnels (inl refl) policy_runs
