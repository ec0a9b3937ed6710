-- ===== src/Tunnel/Keep.antt =====
-- pkg/controller/tunnel/egress_tunnel.go: keepEgressTunnel, which completes a tunnel.
use egressgateway.Prelude.{
  Bool, true, false, ◌==◌, if◌then◌else◌, List, [], ◌∷◌, ◌++◌, Option, none, some, Result, ok, err,
  panic, no_fuel, Error,
}
use egressgateway.Api.{EgressTunnel}
use egressgateway.Ip.Address.{Ip, nil}
use egressgateway.MarkAllocator.Text.{Bytes}
use egressgateway.MarkAllocator.Range as Mark
use egressgateway.MarkAllocator.Range.{Range}
use egressgateway.Controller.Flow.{Exec}
use egressgateway.Tunnel.World.{Env, World, Body, deferred}
use egressgateway.Tunnel.Update.{
  is_empty, with_tunnel, with_mark, update_egress_tunnel, generate_mac_address,
}

module _ {S A B : Type 0} (env : Env S A B) where
  abbrev pub W : Type 0
  W = World S A B

  -- `return err` where `err` is that of an inner block
  abbrev pub inner : Result (Unit {0}) → List (W → W) → W → Body W
  inner r rollback w = (r, record { outer_err = false; rollback = rollback }, w)

  -- the functions that are rolled back
  abbrev pub release_mark : Bytes → W → W
  release_mark m w = record w { mark = (Mark.release env.marks w.mark m).1 }

  abbrev pub released_ip : Option B → Ip → Option B
  released_ip none ip = none
  released_ip (some b) ip = some (env.ips.release b ip).1

  abbrev pub release_v4 : Ip → W → W
  release_v4 ip w = record w { allocator_v4 = released_ip w.allocator_v4 ip }

  abbrev pub release_v6 : Ip → W → W
  release_v6 ip w = record w { allocator_v6 = released_ip w.allocator_v6 ip }

  abbrev pub with_mac : EgressTunnel → EgressTunnel
  with_mac node =
      if node.status.tunnel.mac == ""
      then with_tunnel node
          (record (node.status.tunnel) { mac = generate_mac_address env node.meta.name })
      else node

  abbrev pub updated : List (W → W) → Result (Unit {0}) × W → Body W
  updated rollback (err e, w) =
      inner (err (Error.message "rebuild failed to update egress tunnel")) rollback w
  updated rollback (r, w) = inner r rollback w

  -- the end: what has changed is written
  unfoldable pub keep_end : EgressTunnel → Bool → List (W → W) → W → Body W
  keep_end node need_update rollback w =
      if need_update
      then updated rollback (update_egress_tunnel env node w)
      else inner (ok tt) rollback w

  -- an IPv6 address, or nil where AllocateNext fails
  abbrev pub set_v6 : Ip → EgressTunnel → EgressTunnel
  set_v6 ip node = with_tunnel node (record (node.status.tunnel) { ipv6 = env.text.ip_string ip })

  abbrev pub after_v6 : EgressTunnel → List (W → W) → W → Result Ip × B → Body W
  after_v6 node rollback w (ok ip, b) =
      keep_end (set_v6 ip node) true (rollback ++ release_v6 ip ∷ [])
        (record w { allocator_v6 = some b })
  after_v6 node rollback w (err e, b) =
      keep_end (set_v6 nil node) true (rollback ++ release_v6 nil ∷ [])
        (record w { allocator_v6 = some b })
  after_v6 node rollback w (panic, b) = inner panic rollback w
  after_v6 node rollback w (no_fuel, b) = inner no_fuel rollback w

  unfoldable pub keep_v6 : EgressTunnel → Bool → List (W → W) → W → Body W
  unfolding keep_end
  keep_v6 node need_update rollback w =
      if node.status.tunnel.ipv6 == ""
      then elim w.allocator_v6 [
        | none ↦ keep_end node need_update rollback w
        | some b ↦ after_v6 node rollback w (env.ips.allocate_next b)
      ]
      else keep_end node need_update rollback w

  abbrev pub set_v4 : Ip → EgressTunnel → EgressTunnel
  set_v4 ip node = with_tunnel node (record (node.status.tunnel) { ipv4 = env.text.ip_string ip })

  abbrev pub after_v4 : EgressTunnel → List (W → W) → W → Result Ip × B → Body W
  after_v4 node rollback w (ok ip, b) =
      keep_v6 (set_v4 ip node) true (rollback ++ release_v4 ip ∷ [])
        (record w { allocator_v4 = some b })
  after_v4 node rollback w (err e, b) =
      inner (err (Error.message "can't allocate next ipv4")) rollback
        (record w { allocator_v4 = some b })
  after_v4 node rollback w (panic, b) = inner panic rollback w
  after_v4 node rollback w (no_fuel, b) = inner no_fuel rollback w

  unfoldable pub keep_v4 : EgressTunnel → Bool → List (W → W) → W → Body W
  unfolding keep_v6
  keep_v4 node need_update rollback w =
      if node.status.tunnel.ipv4 == ""
      then elim w.allocator_v4 [
        | none ↦ keep_v6 node need_update rollback w
        | some b ↦ after_v4 node rollback w (env.ips.allocate_next b)
      ]
      else keep_v6 node need_update rollback w

  -- here `err` is that of the function
  abbrev pub after_mark : EgressTunnel → W → Result Bytes × Range A → Body W
  after_mark node w (ok m, r) =
      keep_v4 (with_mark node m) true (release_mark m ∷ []) (record w { mark = r })
  after_mark node w (err e, r) = (
    err (Error.message "can't allocate next mark"),
    record { outer_err = true; rollback = [] },
    record w { mark = r },
  )
  after_mark node w (panic, r) = inner panic [] w
  after_mark node w (no_fuel, r) = inner no_fuel [] w

  unfoldable pub keep_mark : EgressTunnel → W → Body W
  unfolding keep_v4
  keep_mark node w =
      if is_empty node.status.mark
      then after_mark node w (Mark.allocate_next env.marks w.mark)
      else keep_v4 node false [] w

  -- keepEgressTunnel
  unfoldable pub keep_egress_tunnel : EgressTunnel → Exec W (Unit {0})
  unfolding keep_mark deferred
  keep_egress_tunnel node w = deferred (keep_mark (with_mac node) w)
