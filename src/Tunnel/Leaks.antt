-- ===== src/Tunnel/Leaks.antt =====
-- Proofs on the marks that keepEgressTunnel and deleteEgressTunnel of
-- pkg/controller/tunnel/egress_tunnel.go take and give back, whatever the result.
use egressgateway.Prelude.{
  String, ◌≡◌, refl, Bool, true, false, List, [], ◌∷◌, ◌++◌, some, Result, ok, err, panic, no_fuel,
  arith, Option-cases, inl, inr,
}
use egressgateway.Api.{EgressTunnel}
use egressgateway.Ip.Address.{Ip}
use egressgateway.MarkAllocator.Text.{Bytes}
use egressgateway.MarkAllocator.Range as Mark
use egressgateway.MarkAllocator.Range.{Range}
use egressgateway.Controller.Flow.{Exec}
use egressgateway.Tunnel.World.{on_server, Env, Body, deferred}
use egressgateway.Tunnel.Update.{
  settle_phase, as_message, is_empty, with_mark, update_egress_tunnel,
}
use egressgateway.Tunnel.Keep.{
  release_mark, W, keep_end, keep_v6, keep_v4, keep_mark, after_v6, after_v4, updated,
  keep_egress_tunnel, with_mac,
}
use egressgateway.Tunnel.Release.{
  allocate_mark, allocate_v4, release_ipv6, release_ipv4, release_parts, release_egress_tunnel,
  after_release_v6, after_release_v4,
}

module _ {S A B : Type 0} (env : Env S A B) where
  -- a body that ends with the range r and without the error that its deferred function looks for
  abbrev Leaves : Range A → Body (W env) → Type 0
  Leaves r b = (b.1.outer_err ≡ false) × (b.2.mark ≡ r)

  message-mark :
      (m : String) (q : Result (Unit {0}) × S) (w : W env)
      → (as_message m (on_server w q)).1.mark ≡ w.mark
  message-mark m (ok u, s) w = refl
  message-mark m (err e, s) w = refl
  message-mark m (panic, s) w = refl
  message-mark m (no_fuel, s) w = refl

  update-mark :
      (node : EgressTunnel) (w : W env) → (update_egress_tunnel env node w).1.mark ≡ w.mark
  unfolding update_egress_tunnel
  update-mark node w =
      message-mark "rebuild failed to update egress tunnel"
        (env.client.update_tunnel_status (settle_phase env w node) w.server) w

  updated-Leaves :
      (r : Range A) (rollback : List (W env → W env)) (q : Result (Unit {0}) × W env)
      → q.1.mark ≡ r
      → Leaves r (updated env rollback q)
  updated-Leaves r rollback (ok u, w) e = (refl, e)
  updated-Leaves r rollback (err x, w) e = (refl, e)
  updated-Leaves r rollback (panic, w) e = (refl, e)
  updated-Leaves r rollback (no_fuel, w) e = (refl, e)

  keep_end-Leaves :
      (node : EgressTunnel) (need : Bool) (rollback : List (W env → W env)) (w : W env)
      → Leaves w.mark (keep_end env node need rollback w)
  unfolding keep_end
  keep_end-Leaves node true rollback w =
      updated-Leaves w.mark rollback (update_egress_tunnel env node w) (update-mark node w)
  keep_end-Leaves node false rollback w = (refl, refl)

  after_v6-Leaves :
      (node : EgressTunnel) (rollback : List (W env → W env)) (w : W env) (q : Result Ip × B)
      → Leaves w.mark (after_v6 env node rollback w q)
  after_v6-Leaves node rollback w (ok ip, b) =
      keep_end-Leaves _ _ _ (record w { allocator_v6 = some b })
  after_v6-Leaves node rollback w (err e, b) =
      keep_end-Leaves _ _ _ (record w { allocator_v6 = some b })
  after_v6-Leaves node rollback w (panic, b) = (refl, refl)
  after_v6-Leaves node rollback w (no_fuel, b) = (refl, refl)

  keep_v6-Leaves :
      (node : EgressTunnel) (need : Bool) (rollback : List (W env → W env)) (w : W env)
      → Leaves w.mark (keep_v6 env node need rollback w)
  unfolding keep_v6
  keep_v6-Leaves node need rollback w = elim (Option-cases w.allocator_v6) [
    | inl e ↦ ground (arith, keep_end-Leaves node need rollback w)
    | inr (b, e) ↦ ground (
      arith,
      keep_end-Leaves node need rollback w,
      after_v6-Leaves node rollback w (env.ips.allocate_next b),
    )
  ]

  after_v4-Leaves :
      (node : EgressTunnel) (rollback : List (W env → W env)) (w : W env) (q : Result Ip × B)
      → Leaves w.mark (after_v4 env node rollback w q)
  after_v4-Leaves node rollback w (ok ip, b) =
      keep_v6-Leaves _ _ _ (record w { allocator_v4 = some b })
  after_v4-Leaves node rollback w (err e, b) = (refl, refl)
  after_v4-Leaves node rollback w (panic, b) = (refl, refl)
  after_v4-Leaves node rollback w (no_fuel, b) = (refl, refl)

  keep_v4-Leaves :
      (node : EgressTunnel) (need : Bool) (rollback : List (W env → W env)) (w : W env)
      → Leaves w.mark (keep_v4 env node need rollback w)
  unfolding keep_v4
  keep_v4-Leaves node need rollback w = elim (Option-cases w.allocator_v4) [
    | inl e ↦ ground (arith, keep_v6-Leaves node need rollback w)
    | inr (b, e) ↦ ground (
      arith,
      keep_v6-Leaves node need rollback w,
      after_v4-Leaves node rollback w (env.ips.allocate_next b),
    )
  ]

  deferred-Leaves : (r : Range A) (b : Body (W env)) → Leaves r b → (deferred b).1.mark ≡ r
  unfolding deferred
  deferred-Leaves r b (e, m) = ground arith

  keep_mark-Leaves :
      (node : EgressTunnel) (w : W env) (m : Bytes) (r : Range A)
      → is_empty node.status.mark ≡ true
      → Mark.allocate_next env.marks w.mark ≡ (ok m, r)
      → Leaves r (keep_mark env node w)
  unfolding keep_mark
  keep_mark-Leaves node w m r e a =
      let next =
        keep_v4-Leaves (with_mark node m) true (release_mark env m ∷ []) (record w { mark = r }) in
      rw (e, a) next

  -- Once AllocateNext has given a mark, keepEgressTunnel leaves the range of marks as AllocateNext
  -- left it, whatever the result: also where an address cannot be had or the status not be written,
  -- the mark is not rolled back.
  pub keep_egress_tunnel-mark :
      (node : EgressTunnel) (w : W env) (m : Bytes) (r : Range A)
      → node.status.mark ≡ []
      → Mark.allocate_next env.marks w.mark ≡ (ok m, r)
      → (keep_egress_tunnel env node w).1.mark ≡ r
  unfolding keep_egress_tunnel
  keep_egress_tunnel-mark node w m r e a =
      deferred-Leaves r (keep_mark env (with_mac env node) w)
        (keep_mark-Leaves (with_mac env node) w m r (ground (arith, e)) a)

  module _ (node : EgressTunnel) (commit : Exec (W env) (Unit {0}))
      (calls : (w : W env) → (commit w).1.mark ≡ w.mark) where
    after_release_v6-Leaves :
        (ip : Ip) (rollback : List (W env → W env)) (w : W env) (q : Result (Unit {0}) × B)
        → Leaves w.mark (after_release_v6 env commit ip rollback w q)
    after_release_v6-Leaves ip rollback w (ok u, b) =
        (refl, calls (record w { allocator_v6 = some b }))
    after_release_v6-Leaves ip rollback w (err e, b) = (refl, refl)
    after_release_v6-Leaves ip rollback w (panic, b) = (refl, refl)
    after_release_v6-Leaves ip rollback w (no_fuel, b) = (refl, refl)

    release_ipv6-Leaves :
        (rollback : List (W env → W env)) (w : W env)
        → Leaves w.mark (release_ipv6 env node commit rollback w)
    unfolding release_ipv6
    release_ipv6-Leaves rollback w = elim (Option-cases w.allocator_v6) [
      | inl e ↦ ground (arith, calls w)
      | inr (b, e) ↦ ground (
        arith,
        calls w,
        after_release_v6-Leaves (env.text.parse_ip node.status.tunnel.ipv6) rollback w
            (env.ips.release b (env.text.parse_ip node.status.tunnel.ipv6)),
      )
    ]

    after_release_v4-Leaves :
        (ip : Ip) (rollback : List (W env → W env)) (w : W env) (q : Result (Unit {0}) × B)
        → Leaves w.mark (after_release_v4 env node commit ip rollback w q)
    after_release_v4-Leaves ip rollback w (ok u, b) =
        release_ipv6-Leaves _ (record w { allocator_v4 = some b })
    after_release_v4-Leaves ip rollback w (err e, b) = (refl, refl)
    after_release_v4-Leaves ip rollback w (panic, b) = (refl, refl)
    after_release_v4-Leaves ip rollback w (no_fuel, b) = (refl, refl)

    release_ipv4-Leaves :
        (rollback : List (W env → W env)) (w : W env)
        → Leaves w.mark (release_ipv4 env node commit rollback w)
    unfolding release_ipv4
    release_ipv4-Leaves rollback w =
        let ip = env.text.parse_ip node.status.tunnel.ipv4 in
        elim (Option-cases w.allocator_v4) [
          | inl e ↦ ground (arith, release_ipv6-Leaves rollback w)
          | inr (b, e) ↦ ground (
            arith,
            release_ipv6-Leaves rollback w,
            release_ipv6-Leaves (rollback ++ allocate_v4 env ip ∷ []) w,
            after_release_v4-Leaves ip rollback w (env.ips.release b ip),
          )
        ]

    release_parts-Leaves :
        (w : W env) (r : Range A)
        → is_empty node.status.mark ≡ false
        → Mark.release env.marks w.mark node.status.mark ≡ (ok tt, r)
        → Leaves r (release_parts env node commit w)
    unfolding release_parts
    release_parts-Leaves w r e a =
        let next =
          release_ipv4-Leaves (allocate_mark env node.status.mark ∷ []) (record w { mark = r }) in
        rw (e, a) next

    -- Once Release has taken the mark of a tunnel back, releaseEgressTunnel leaves the range of marks
    -- as Release left it, whatever the result, for a commit that leaves the marks: where the commit
    -- fails, so that the tunnel stays, its mark is not held again.
    pub release_egress_tunnel-mark :
        (w : W env) (r : Range A)
        → is_empty node.status.mark ≡ false
        → Mark.release env.marks w.mark node.status.mark ≡ (ok tt, r)
        → (release_egress_tunnel env node commit w).1.mark ≡ r
    unfolding release_egress_tunnel
    release_egress_tunnel-mark w r e a =
        deferred-Leaves r (release_parts env node commit w) (release_parts-Leaves w r e a)
