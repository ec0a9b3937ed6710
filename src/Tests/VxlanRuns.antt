-- ===== src/Tests/VxlanRuns.antt =====
-- The theorems on the peers of pkg/agent/vxlan.go, at the node a with the tunnel of the node b.
use egressgateway.Prelude.{
  ℕ, String, true, false, ◌==◌, if◌then◌else◌, [], ◌∷◌, Option, none, some, Error, Result, ok, err,
  ◌≡◌, refl, ap, arith, sym, ◌∙◌, eq_iff, Bool-cases, inl, inr, ◌+◌,
}
use egressgateway.Prelude.Int.{pos, int_eq}
use egressgateway.Api.{EgressTunnel}
use egressgateway.Ip.Address.{Ip, v4, nil}
use egressgateway.Gateway.Nodes.{Request}
use egressgateway.Agent.Peers.{Env, World, Peer, load_peer}
use egressgateway.Agent.Vxlan.{init_tunnel_peer_map, reconcile_egress_tunnel}
use egressgateway.Agent.PeerMaps.{
  init_tunnel_peer_map-others, reconcile_egress_tunnel-peers, peer_after,
}
use egressgateway.Agent.World.{or_missing}
use egressgateway.Agent.Routes.{ensure}
use egressgateway.MarkAllocator.Text.{replace_0x, parse_uint, digit_value}

abbrev tunnel_b : EgressTunnel
tunnel_b = record {
  meta = record { name = "b"; namespace = ""; labels = []; finalizers = []; deleting = false };
  status = record {
    tunnel = record {
      ipv4 = "1";
      ipv6 = "";
      mac = "m";
      parent = record { name = "eth0"; ipv4 = "2"; ipv6 = "" };
    };
    phase = "Ready";
    mark = b'0' ∷ b'x' ∷ b'5' ∷ [];
    last_heartbeat_time = 0;
  };
}

abbrev read_ip : String → Ip
read_ip s = if s == "1" then v4 1 else if s == "2" then v4 2 else nil

abbrev env : Env ℕ
env = record {
  cfg = record {
    node_name = "a";
    enable_ipv4 = true;
    enable_ipv6 = false;
    vxlan_name = "vxlan0";
    tunnel_update_period = 5;
  };
  client = record {
    get_tunnel = λ name s. if name == "b" then (ok tunnel_b, s) else (err Error.not_found, s);
    list_tunnels = λ s. (ok (tunnel_b ∷ []), s);
    get_gateway = λ name s. (err Error.not_found, s);
    update_status = λ t s. (ok t, s);
    now = λ s. s;
  };
  netlink = record {
    rule_list_filtered = λ f m s. (ok [], s);
    rule_del = λ f r s. (ok tt, s);
    rule_add = λ f r s. (ok tt, s + 1);
    route_list_filtered = λ f t s. (ok [], s);
    route_del = λ r s. (ok tt, s);
    route_add = λ r s. (ok tt, s + 1);
    link_by_name = λ n s. (ok 3, s);
  };
  neigh = record {
    neigh_list = λ l s. (ok [], s);
    neigh_set = λ n s. (ok tt, s + 1);
    neigh_del = λ n s. (ok tt, s);
  };
  get_parent = λ v s. (ok (record { name = "eth0"; ip = v4 9 }), s);
  text = record {
    parse_ip = read_ip;
    ip_string = λ ip. "x";
    parse_cidr = λ s. none;
    is_ipv4 = λ s. true;
    is_ipv6 = λ s. false;
  };
  parse_mac = λ s. if s == "m" then some (1 ∷ []) else none;
  hardware_addr = λ m. "m";
  range = λ m. m;
}

abbrev start : World ℕ
start = record { peer_map = []; done = false; link = some 3; update_timer = 0; server = 0 }

abbrev vtep_b : Peer
vtep_b = record { ipv4 = some (v4 1); ipv6 = none; parent = nil; mac = 1 ∷ []; mark = pos 0 }

-- the peer of b under the name of this node
abbrev inited : World ℕ
inited = record start { peer_map = ("a", vtep_b) ∷ [] }

init_run : init_tunnel_peer_map env start ≡ (ok tt, inited)
unfolding init_tunnel_peer_map
init_run = refl

init_tunnel_peer_map-others_example : load_peer "b" inited.peer_map ≡ load_peer "b" []
init_tunnel_peer_map-others_example = init_tunnel_peer_map-others env start inited init_run "b" refl

abbrev peer_b : Peer
peer_b = record vtep_b { parent = v4 2; mark = pos 5 }

abbrev reconciled : World ℕ
reconciled = record inited { peer_map = ("b", peer_b) ∷ inited.peer_map; server = 4 }

abbrev request : Request
request = record { namespace = ""; name = "b" }

reconcile_run : reconcile_egress_tunnel env request inited ≡ (ok tt, reconciled)
unfolding reconcile_egress_tunnel ensure replace_0x int_eq parse_uint digit_value
reconcile_run = refl

abbrev name_of : Result EgressTunnel × ℕ → String
name_of (ok t, s) = t.meta.name
name_of (r, s) = ""

by_name :
    (name : String) (s s' : ℕ) (t : EgressTunnel)
    → env.client.get_tunnel name s ≡ (ok t, s')
    → t.meta.name ≡ name
by_name name s s' t h = elim (Bool-cases (name == "b")) [
  | inl same ↦ sym (ap name_of (rw same at h)) ∙ sym ((eq_iff name "b").0 same)
  | inr other ↦ absurd (ground (arith, rw other at h))
]

reconcile_egress_tunnel-peers_example :
    (found : Option EgressTunnel) × (s : ℕ) × (or_missing (env.client.get_tunnel "b" 0)
      ≡ (ok found, s))
    × ((k : String)
        → load_peer k reconciled.peer_map ≡ (
            if k == "b"
            then peer_after env found (load_peer "b" inited.peer_map)
            else load_peer k inited.peer_map))
reconcile_egress_tunnel-peers_example =
    reconcile_egress_tunnel-peers env by_name request inited reconciled refl reconcile_run
