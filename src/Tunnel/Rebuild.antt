-- ===== src/Tunnel/Rebuild.antt =====
-- pkg/controller/tunnel/egress_tunnel.go: reBuildCache and initEgressTunnel, which tell the
-- allocators what the tunnels have.
use egressgateway.Prelude.{
  ℕ, zero, suc, Bool, true, false, ◌==◌, if◌then◌else◌, List, [], ◌∷◌, ◌++◌, none, some, Result, ok,
  err, panic, no_fuel, Error,
}
use egressgateway.Api.{EgressTunnel}
use egressgateway.Ip.Address.{Ip, is_to4}
use egressgateway.MarkAllocator.Range as Mark
use egressgateway.MarkAllocator.Range.{Range}
use egressgateway.Controller.Flow.{Exec, after, each}
use egressgateway.Tunnel.World.{Env, Body, call, deferred}
use egressgateway.Tunnel.Update.{is_empty, with_tunnel, as_message, update_egress_tunnel}
use egressgateway.Tunnel.Keep.{W, inner, release_mark, release_v4, release_v6}
use egressgateway.Tunnel.Release.{is_to16}

abbrev pub without_mac : EgressTunnel → EgressTunnel
without_mac node = with_tunnel node (record (node.status.tunnel) { mac = "" })

abbrev pub without_v4 : EgressTunnel → EgressTunnel
without_v4 node = with_tunnel node (record (node.status.tunnel) { ipv4 = "" })

abbrev pub without_v6 : EgressTunnel → EgressTunnel
without_v6 node = with_tunnel node (record (node.status.tunnel) { ipv6 = "" })

-- errors.Is(err, ipallocator.ErrAllocated)
abbrev pub is_allocated_error : Error → Bool
is_allocated_error Error.already_allocated = true
is_allocated_error _ = false

module _ {S A B : Type 0} (env : Env S A B) where
  abbrev pub rewritten : List (W env → W env) → Result (Unit {0}) × W env → Body (W env)
  rewritten rollback (err e, w) =
      inner env (err (Error.message "rebuild failed to update egress tunnel")) rollback w
  rewritten rollback (r, w) = inner env r rollback w

  unfoldable pub rebuild_end : EgressTunnel → Bool → List (W env → W env) → W env → Body (W env)
  rebuild_end node need_update rollback w =
      if need_update
      then rewritten rollback (update_egress_tunnel env node w)
      else inner env (ok tt) rollback w

  -- an error other than that the address is allocated is taken for success
  abbrev pub after_rebuild_v6 :
      EgressTunnel → Bool → Ip → List (W env → W env) → W env → Result (Unit {0}) × B → Body (W env)
  after_rebuild_v6 node need_update ip rollback w (ok u, b) =
      rebuild_end node need_update rollback (record w { allocator_v6 = some b })
  after_rebuild_v6 node need_update ip rollback w (err e, b) =
      if is_allocated_error e
      then rebuild_end (without_v6 node) true rollback (record w { allocator_v6 = some b })
      else rebuild_end node need_update (rollback ++ release_v6 env ip ∷ [])
          (record w { allocator_v6 = some b })
  after_rebuild_v6 node need_update ip rollback w (panic, b) = inner env panic rollback w
  after_rebuild_v6 node need_update ip rollback w (no_fuel, b) = inner env no_fuel rollback w

  unfoldable pub rebuild_v6 : EgressTunnel → Bool → List (W env → W env) → W env → Body (W env)
  unfolding rebuild_end
  rebuild_v6 node need_update rollback w =
      let ip = env.text.parse_ip node.status.tunnel.ipv6 in
      if node.status.tunnel.ipv6 == ""
      then rebuild_end node need_update rollback w
      else elim w.allocator_v6 [
        | none ↦ rebuild_end (without_v6 node) true rollback w
        | some b ↦
            if is_to16 ip
            then after_rebuild_v6 node need_update ip rollback w (env.ips.allocate b ip)
            else rebuild_end node need_update rollback w
      ]

  abbrev pub after_rebuild_v4 :
      EgressTunnel → Bool → Ip → List (W env → W env) → W env → Result (Unit {0}) × B → Body (W env)
  after_rebuild_v4 node need_update ip rollback w (ok u, b) =
      rebuild_v6 node need_update (rollback ++ release_v4 env ip ∷ [])
        (record w { allocator_v4 = some b })
  after_rebuild_v4 node need_update ip rollback w (err e, b) =
      rebuild_v6 (without_v4 node) true rollback (record w { allocator_v4 = some b })
  after_rebuild_v4 node need_update ip rollback w (panic, b) = inner env panic rollback w
  after_rebuild_v4 node need_update ip rollback w (no_fuel, b) = inner env no_fuel rollback w

  unfoldable pub rebuild_v4 : EgressTunnel → Bool → List (W env → W env) → W env → Body (W env)
  unfolding rebuild_v6
  rebuild_v4 node need_update rollback w =
      let ip = env.text.parse_ip node.status.tunnel.ipv4 in
      if node.status.tunnel.ipv4 == ""
      then rebuild_v6 node need_update rollback w
      else elim w.allocator_v4 [
        | none ↦ rebuild_v6 (without_v4 node) true rollback w
        | some b ↦
            if is_to4 ip
            then after_rebuild_v4 node need_update ip rollback w (env.ips.allocate b ip)
            else rebuild_v6 node need_update rollback w
      ]

  -- where the mark cannot be had again, it is the MAC address that is cleared
  abbrev pub after_rebuild_mark : EgressTunnel → W env → Result (Unit {0}) × Range A → Body (W env)
  after_rebuild_mark node w (ok u, r) =
      rebuild_v4 node false (release_mark env node.status.mark ∷ []) (record w { mark = r })
  after_rebuild_mark node w (err e, r) =
      rebuild_v4 (without_mac node) true [] (record w { mark = r })
  after_rebuild_mark node w (panic, r) = inner env panic [] w
  after_rebuild_mark node w (no_fuel, r) = inner env no_fuel [] w

  unfoldable pub rebuild_mark : EgressTunnel → W env → Body (W env)
  unfolding rebuild_v4
  rebuild_mark node w =
      if is_empty node.status.mark
      then rebuild_v4 node false [] w
      else after_rebuild_mark node w (Mark.allocate env.marks w.mark node.status.mark)

  -- reBuildCache
  unfoldable pub re_build_cache : EgressTunnel → Exec (W env) (Unit {0})
  unfolding rebuild_mark deferred
  re_build_cache node w = deferred (rebuild_mark node w)

  abbrev pub tried : Result (Unit {0}) × W env → Exec (W env) (Unit {0}) → Result (Unit {0}) × W env
  tried (err e, w) again = again w
  tried (r, w) again = (r, w)

  -- the loop of initEgressTunnel for one tunnel, which tries until it succeeds
  unfoldable pub rebuild_loop : ℕ → EgressTunnel → Exec (W env) (Unit {0})
  rebuild_loop zero node w = (no_fuel, w)
  rebuild_loop (suc fuel) node w =
      let again = rebuild_loop fuel node in tried (re_build_cache node w) again

  -- initEgressTunnel
  unfoldable pub init_egress_tunnel : ℕ → Exec (W env) (Unit {0})
  unfolding rebuild_loop each
  init_egress_tunnel fuel w =
      after (as_message "failed to list node" (call env.client.list_tunnels w))
        (each (rebuild_loop fuel))
