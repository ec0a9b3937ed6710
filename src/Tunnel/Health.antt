-- ===== src/Tunnel/Health.antt =====
-- pkg/controller/tunnel/egress_tunnel.go: tunnelListCheck, which finds tunnels whose heartbeat has
-- stopped.
use egressgateway.Prelude.{◌+◌, ◌==◌, if◌then◌else◌, Result, ok, err, panic, no_fuel, ltb}
use egressgateway.Api.{EgressTunnel}
use egressgateway.Api.Phase
use egressgateway.Controller.Flow.{Exec, after, each}
use egressgateway.Tunnel.World.{Env, call}
use egressgateway.Tunnel.Update.{with_phase}
use egressgateway.Tunnel.Keep.{W}

-- an error is logged, and the loop goes on
abbrev pub logged : {X : Type 0} → Result (Unit {0}) × X → Result (Unit {0}) × X
logged (err e, w) = (ok tt, w)
logged (r, w) = (r, w)

module _ {S A B : Type 0} (env : Env S A B) where
  abbrev pub checked_tunnel : Result EgressTunnel × W env → Result (Unit {0}) × W env
  checked_tunnel (err e, w) = (ok tt, w)
  checked_tunnel (ok tunnel, w) =
      if ltb (tunnel.status.last_heartbeat_time + env.eip_eviction_timeout)
        (env.client.now w.server)
      then (if tunnel.status.phase == Phase.heartbeat_timeout
          then (ok tt, w)
          else logged (
              call (env.client.update_tunnel_status (with_phase tunnel Phase.heartbeat_timeout)) w))
      else (ok tt, w)
  checked_tunnel (panic, w) = (panic, w)
  checked_tunnel (no_fuel, w) = (no_fuel, w)

  -- one tunnel of the list
  unfoldable pub check_tunnel : EgressTunnel → Exec (W env) (Unit {0})
  check_tunnel item w = checked_tunnel (call (env.client.get_tunnel item.meta.name) w)

  -- tunnelListCheck
  unfoldable pub tunnel_list_check : Exec (W env) (Unit {0})
  unfolding check_tunnel each
  tunnel_list_check w = after (call env.client.list_tunnels w) (each check_tunnel)
