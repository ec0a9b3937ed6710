-- ===== src/Tunnel/Release.antt =====
-- pkg/controller/tunnel/egress_tunnel.go: releaseEgressTunnel, deleteEgressTunnel and
-- createEgressTunnel.
use egressgateway.Prelude.{
  String, Bool, true, false, ◌==◌, if◌then◌else◌, List, [], ◌∷◌, ◌++◌, Option, none, some, Result,
  ok, err, panic, no_fuel, Error,
}
use egressgateway.Api.{EgressTunnel}
use egressgateway.Ip.Address.{Ip, nil, v4, v6, is_to4}
use egressgateway.MarkAllocator.Text.{Bytes}
use egressgateway.MarkAllocator.Range as Mark
use egressgateway.MarkAllocator.Range.{Range}
use egressgateway.Controller.Flow.{Exec}
use egressgateway.Tunnel.World.{Env, Body, call, deferred}
use egressgateway.Tunnel.Update.{is_empty, as_message}
use egressgateway.Tunnel.Keep.{W, inner}

abbrev pub egress_tunnel_finalizers : String
egress_tunnel_finalizers = "egressgateway.spidernet.io/egresstunnel"

-- ip.To16() != nil
abbrev pub is_to16 : Ip → Bool
is_to16 nil = false
is_to16 (v4 n) = true
is_to16 (v6 n) = true

module _ {S A B : Type 0} (env : Env S A B) where
  -- the functions that are rolled back
  abbrev pub allocate_mark : Bytes → W env → W env
  allocate_mark m w = record w { mark = (Mark.allocate env.marks w.mark m).1 }

  abbrev pub taken_ip : Option B → Ip → Option B
  taken_ip none ip = none
  taken_ip (some b) ip = some (env.ips.allocate b ip).1

  abbrev pub allocate_v4 : Ip → W env → W env
  allocate_v4 ip w = record w { allocator_v4 = taken_ip w.allocator_v4 ip }

  abbrev pub allocate_v6 : Ip → W env → W env
  allocate_v6 ip w = record w { allocator_v6 = taken_ip w.allocator_v6 ip }

  -- the end: `return commit()` does not set the function's `err`
  abbrev pub committed : List (W env → W env) → Result (Unit {0}) × W env → Body (W env)
  committed rollback (r, w) = inner env r rollback w

  abbrev pub after_release_v6 :
      Exec (W env) (Unit {0})
      → Ip
      → List (W env → W env)
      → W env
      → Result (Unit {0}) × B
      → Body (W env)
  after_release_v6 commit ip rollback w (ok u, b) =
      let w' = record w { allocator_v6 = some b } in
      committed (rollback ++ allocate_v6 ip ∷ []) (commit w')
  after_release_v6 commit ip rollback w (err e, b) =
      inner env (err (Error.message "failed to release egress tunnel tunnel ipv6")) rollback
        (record w { allocator_v6 = some b })
  after_release_v6 commit ip rollback w (panic, b) = inner env panic rollback w
  after_release_v6 commit ip rollback w (no_fuel, b) = inner env no_fuel rollback w

  unfoldable pub release_ipv6 :
      EgressTunnel → Exec (W env) (Unit {0}) → List (W env → W env) → W env → Body (W env)
  release_ipv6 node commit rollback w =
      let ip = env.text.parse_ip node.status.tunnel.ipv6 in
      if node.status.tunnel.ipv6 == "" then committed rollback (commit w) else elim w.allocator_v6 [
        | none ↦ committed rollback (commit w)
        | some b ↦
            if is_to16 ip
            then after_release_v6 commit ip rollback w (env.ips.release b ip)
            else committed (rollback ++ allocate_v6 ip ∷ []) (commit w)
      ]

  abbrev pub after_release_v4 :
      EgressTunnel
      → Exec (W env) (Unit {0})
      → Ip
      → List (W env → W env)
      → W env
      → Result (Unit {0}) × B
      → Body (W env)
  after_release_v4 node commit ip rollback w (ok u, b) =
      release_ipv6 node commit (rollback ++ allocate_v4 ip ∷ [])
        (record w { allocator_v4 = some b })
  after_release_v4 node commit ip rollback w (err e, b) =
      inner env (err (Error.message "failed to release egress tunnel tunnel ipv4")) rollback
        (record w { allocator_v4 = some b })
  after_release_v4 node commit ip rollback w (panic, b) = inner env panic rollback w
  after_release_v4 node commit ip rollback w (no_fuel, b) = inner env no_fuel rollback w

  unfoldable pub release_ipv4 :
      EgressTunnel → Exec (W env) (Unit {0}) → List (W env → W env) → W env → Body (W env)
  unfolding release_ipv6
  release_ipv4 node commit rollback w =
      let ip = env.text.parse_ip node.status.tunnel.ipv4 in
      if node.status.tunnel.ipv4 == ""
      then release_ipv6 node commit rollback w
      else elim w.allocator_v4 [
        | none ↦ release_ipv6 node commit rollback w
        | some b ↦
            if is_to4 ip
            then after_release_v4 node commit ip rollback w (env.ips.release b ip)
            else release_ipv6 node commit (rollback ++ allocate_v4 ip ∷ []) w
      ]

  abbrev pub after_release_mark :
      EgressTunnel → Exec (W env) (Unit {0}) → W env → Result (Unit {0}) × Range A → Body (W env)
  after_release_mark node commit w (ok u, r) =
      release_ipv4 node commit (allocate_mark node.status.mark ∷ []) (record w { mark = r })
  after_release_mark node commit w (err e, r) =
      inner env (err (Error.message "failed to release egress tunnel mark")) []
        (record w { mark = r })
  after_release_mark node commit w (panic, r) = inner env panic [] w
  after_release_mark node commit w (no_fuel, r) = inner env no_fuel [] w

  unfoldable pub release_parts : EgressTunnel → Exec (W env) (Unit {0}) → W env → Body (W env)
  unfolding release_ipv4
  release_parts node commit w =
      if is_empty node.status.mark
      then release_ipv4 node commit [] w
      else after_release_mark node commit w (Mark.release env.marks w.mark node.status.mark)

  -- releaseEgressTunnel
  unfoldable pub release_egress_tunnel :
      EgressTunnel → Exec (W env) (Unit {0}) → Exec (W env) (Unit {0})
  unfolding release_parts deferred
  release_egress_tunnel node commit w = deferred (release_parts node commit w)

  -- deleteEgressTunnel
  unfoldable pub delete_egress_tunnel : EgressTunnel → Exec (W env) (Unit {0})
  unfolding release_egress_tunnel
  delete_egress_tunnel node = release_egress_tunnel node (call (env.client.delete_tunnel node))

  -- createEgressTunnel
  unfoldable pub create_egress_tunnel : String → Exec (W env) (Unit {0})
  create_egress_tunnel name w = as_message "failed to create egress tunnel" (
      call
        (env.client.create_tunnel (record {
          meta = record {
            name = name;
            namespace = "";
            labels = [];
            finalizers = egress_tunnel_finalizers ∷ [];
            deleting = false;
          };
          status = record {
            tunnel = record {
              ipv4 = "";
              ipv6 = "";
              mac = "";
              parent = record { name = ""; ipv4 = ""; ipv6 = "" };
            };
            phase = "";
            mark = [];
            last_heartbeat_time = 0;
          };
        }))
        w)
