-- ===== src/Tests/TunnelRuns.antt =====
-- The theorems on tunnels, at a controller whose marks are those of the range 0x26000000.
use egressgateway.Prelude.{
  ℕ, ◌≡◌, ◌≢◌, refl, String, true, false, List, [], ◌∷◌, none, some, ok, err, arith, inl, inr,
  not_found, range_full, already_allocated,
}
use egressgateway.Api.{EgressTunnel}
use egressgateway.MarkAllocator.Text.{Bytes, parse, digit_value}
use egressgateway.MarkAllocator.Range as Mark
use egressgateway.MarkAllocator.Holding.{IsRange}
use egressgateway.Tunnel.World.{Env, World, IpAllocator, TunnelClient, deferred}
use egressgateway.Tunnel.Update.{settle_phase, update_egress_tunnel}
use egressgateway.Tunnel.Keep.{keep_egress_tunnel}
use egressgateway.Tunnel.Release.{delete_egress_tunnel}
use egressgateway.Tunnel.Rebuild.{re_build_cache}
use egressgateway.Tunnel.Marks.{
  keep_egress_tunnel-holds, delete_egress_tunnel-frees, keep_egress_tunnel-idle,
}
use egressgateway.Tunnel.Rewrites.{Written, re_build_cache-Written}
use egressgateway.Tests.Allocators.{member, Taken, simple, size, simple-IsAllocator}
use egressgateway.Tests.MarkRuns.{marks, marks-IsRange, next, after_next, next_runs}
use egressgateway.Tests.Texts.{tally_host}

-- a pool of addresses that is used up
abbrev used_up : IpAllocator ℕ
used_up = record {
  allocate = λ b ip. (err already_allocated, b);
  allocate_next = λ b. (err range_full, b);
  release = λ b ip. (ok tt, b);
}

-- the state of the server is the list of what was written
abbrev Server : Type 0
Server = List EgressTunnel

abbrev client : TunnelClient Server
client = record {
  get_tunnel = λ name s. (err not_found, s);
  get_node = λ name s. (err not_found, s);
  list_tunnels = λ s. (ok s, s);
  create_tunnel = λ t s. (ok tt, t ∷ s);
  update_tunnel = λ t s. (ok tt, t ∷ s);
  update_tunnel_status = λ t s. (ok tt, t ∷ s);
  delete_tunnel = λ t s. (err not_found, s);
  now = λ s. 7;
}

abbrev env : Env Server Taken ℕ
env = record {
  marks = simple;
  ips = used_up;
  client = client;
  text = tally_host.text;
  sha1 = λ s. 1 ∷ 2 ∷ 3 ∷ 4 ∷ 5 ∷ 6 ∷ [];
  hardware_addr = λ bytes. "66:01";
  failover = true;
  eip_eviction_timeout = 5;
}

abbrev world : World Server Taken ℕ
world = record { mark = marks; allocator_v4 = some 0; allocator_v6 = none; server = [] }

abbrev tunnel_with : Bytes → String → String → EgressTunnel
tunnel_with mark ipv4 mac = record {
  meta = record { name = "n1"; namespace = ""; labels = []; finalizers = []; deleting = false };
  status = record {
    tunnel = record {
      ipv4 = ipv4;
      ipv6 = "";
      mac = mac;
      parent = record { name = "eth0"; ipv4 = ""; ipv6 = "" };
    };
    phase = "Ready";
    mark = mark;
    last_heartbeat_time = 0;
  };
}

abbrev bare : EgressTunnel
bare = tunnel_with [] "" ""

abbrev sixth : Bytes
sixth = b'0' ∷ b'x' ∷ b'2' ∷ b'6' ∷ b'0' ∷ b'0' ∷ b'0' ∷ b'0' ∷ b'0' ∷ b'6' ∷ []

abbrev full : EgressTunnel
full = tunnel_with sixth "aaa" ""

sixth_read : parse sixth ≡ ok 0x26000006
unfolding parse digit_value
sixth_read = refl

-- the pool is used up, and so the tunnel is not written, and its mark is lost
keep_egress_tunnel-holds_example :
    (Mark.has simple marks next ≡ false)
    × (Mark.has simple (keep_egress_tunnel env bare world).1.mark next ≡ true)
    × IsRange size (keep_egress_tunnel env bare world).1.mark 16777214
    × ((m : Bytes)
        → parse m ≢ parse next
        → Mark.has simple (keep_egress_tunnel env bare world).1.mark m ≡ Mark.has simple marks m)
keep_egress_tunnel-holds_example =
    keep_egress_tunnel-holds env size simple-IsAllocator world 16777214 bare marks-IsRange next
      after_next refl next_runs

-- Delete fails, and the mark is free
delete_egress_tunnel-frees_example :
    (Mark.has simple (delete_egress_tunnel env full world).1.mark sixth ≡ false)
    × IsRange size (delete_egress_tunnel env full world).1.mark 16777214
    × ((m : Bytes)
        → parse m ≢ ok 0x26000006
        → Mark.has simple (delete_egress_tunnel env full world).1.mark m ≡ Mark.has simple marks m)
delete_egress_tunnel-frees_example =
    delete_egress_tunnel-frees env size simple-IsAllocator world 16777214 full marks-IsRange
      0x26000006 sixth_read (omega arith) (omega arith)

keep_egress_tunnel-idle_example : keep_egress_tunnel env full world ≡ (ok tt, world)
keep_egress_tunnel-idle_example = keep_egress_tunnel-idle env full world refl (inl refl) (inr refl)

-- the mark 0x26000006 is another tunnel's
abbrev rebuilt : World Server Taken ℕ
rebuilt = (re_build_cache env full world).1

not_again :
    Mark.allocate simple marks sixth ≡ (err already_allocated, (Mark.allocate simple marks sixth).1)
unfolding Mark.allocate digit_value parse member
not_again = refl

rebuilt_ok : re_build_cache env full world ≡ (ok tt, rebuilt)
unfolding re_build_cache deferred settle_phase digit_value Mark.allocate parse member
    update_egress_tunnel
rebuilt_ok = refl

re_build_cache-Written_example : Written env sixth rebuilt
re_build_cache-Written_example =
    re_build_cache-Written env full world rebuilt (Mark.allocate simple marks sixth).1
      already_allocated refl not_again rebuilt_ok
