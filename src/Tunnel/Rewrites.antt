-- ===== src/Tunnel/Rewrites.antt =====
-- Proofs on what reBuildCache of pkg/controller/tunnel/egress_tunnel.go writes.
use egressgateway.Prelude.{
  ◌≡◌, refl, ◌∙◌, ap, sym, Bool, true, false, ◌==◌, if◌then◌else◌, List, [], Option, none, some,
  Result, ok, err, panic, no_fuel, Error,
}
use mathlib.Core.Path.{subst}
use egressgateway.Api.{EgressTunnel}
use egressgateway.Ip.Address.{Ip, is_to4}
use egressgateway.MarkAllocator.Text.{Bytes}
use egressgateway.MarkAllocator.Range as Mark
use egressgateway.MarkAllocator.Range.{Range}
use egressgateway.Tunnel.World.{Env, World, Body, on_server, deferred}
use egressgateway.Tunnel.Update.{is_empty, as_message, settle_phase, update_egress_tunnel}
use egressgateway.Tunnel.Keep.{W, inner}
use egressgateway.Tunnel.Release.{is_to16}
use egressgateway.Tunnel.Rebuild.{
  without_mac, without_v4, without_v6, rewritten, rebuild_end, rebuild_v6, rebuild_v4, rebuild_mark,
  re_build_cache, after_rebuild_v6, after_rebuild_v4, is_allocated_error,
}

module _ {S A B : Type 0} (env : Env S A B) (m : Bytes) where
  -- a tunnel with the mark m and without a MAC address
  abbrev Bare : EgressTunnel → Type 0
  Bare n = (n.status.mark ≡ m) × (n.status.tunnel.mac ≡ "")

  -- the state is that after such a tunnel was written
  abbrev pub Written : W env → Type 0
  Written w' =
      (n : EgressTunnel) × (w : W env) × (n.status.mark ≡ m)
      × (n.status.tunnel.mac ≡ "")
      × (env.client.update_tunnel_status (settle_phase env w n) w.server ≡ (ok tt, w'.server))

  abbrev Writes : Body (W env) → Type 0
  Writes b = (b.1.outer_err ≡ false) × (b.0 ≡ ok tt → Written b.2)

  rewritten-Writes :
      (rollback : List (W env → W env)) (w : W env) (n : EgressTunnel) (q : Result (Unit {0}) × S)
      → Bare n
      → env.client.update_tunnel_status (settle_phase env w n) w.server ≡ q
      → Writes (
          rewritten env rollback
            (as_message "rebuild failed to update egress tunnel" (on_server w q)))
  rewritten-Writes rollback w n (ok u, s) (bm, bc) e = (refl, (λ _. (n, w, bm, bc, e)))
  rewritten-Writes rollback w n (err x, s) b e = (refl, (λ h. cc))
  rewritten-Writes rollback w n (panic, s) b e = (refl, (λ h. cc))
  rewritten-Writes rollback w n (no_fuel, s) b e = (refl, (λ h. cc))

  if-Writes : (c : Bool) (x y : Body (W env)) → Writes x → Writes y → Writes (if c then x else y)
  if-Writes true x y p q = p
  if-Writes false x y p q = q

  some-Writes :
      (o : Option B) (x : Body (W env)) (f : B → Body (W env))
      → Writes x
      → ((b : B) → Writes (f b))
      → Writes (elim o [ none ↦ x | some b ↦ f b ])
  some-Writes none x f p q = p
  some-Writes (some b) x f p q = q b

  panic-Writes : (rollback : List (W env → W env)) (w : W env) → Writes (inner env panic rollback w)
  panic-Writes rollback w = (refl, (λ h. cc))

  no_fuel-Writes :
      (rollback : List (W env → W env)) (w : W env) → Writes (inner env no_fuel rollback w)
  no_fuel-Writes rollback w = (refl, (λ h. cc))

  rebuild_end-Writes :
      (n : EgressTunnel) (rollback : List (W env → W env)) (w : W env)
      → Bare n
      → Writes (rebuild_end env n true rollback w)
  unfolding rebuild_end update_egress_tunnel
  rebuild_end-Writes n rollback w b = rewritten-Writes rollback w n _ b refl

  after_rebuild_v6-Writes :
      (n : EgressTunnel) (ip : Ip) (rollback : List (W env → W env)) (w : W env)
      (q : Result (Unit {0}) × B)
      → Bare n
      → Writes (after_rebuild_v6 env n true ip rollback w q)
  after_rebuild_v6-Writes n ip rollback w (ok u, s) b = rebuild_end-Writes n rollback _ b
  after_rebuild_v6-Writes n ip rollback w (err e, s) b =
      if-Writes (is_allocated_error e) _ _ (rebuild_end-Writes (without_v6 n) rollback _ b)
        (rebuild_end-Writes n _ _ b)
  after_rebuild_v6-Writes n ip rollback w (panic, s) b = panic-Writes rollback w
  after_rebuild_v6-Writes n ip rollback w (no_fuel, s) b = no_fuel-Writes rollback w

  rebuild_v6-Writes :
      (n : EgressTunnel) (rollback : List (W env → W env)) (w : W env)
      → Bare n
      → Writes (rebuild_v6 env n true rollback w)
  unfolding rebuild_v6
  rebuild_v6-Writes n rollback w b =
      if-Writes (n.status.tunnel.ipv6 == "") _ _ (rebuild_end-Writes n rollback w b) (
        some-Writes w.allocator_v6 _ _ (rebuild_end-Writes (without_v6 n) rollback w b) (λ s.
          if-Writes (is_to16 (env.text.parse_ip n.status.tunnel.ipv6)) _ _
            (after_rebuild_v6-Writes n _ rollback w _ b) (rebuild_end-Writes n rollback w b)))

  after_rebuild_v4-Writes :
      (n : EgressTunnel) (ip : Ip) (rollback : List (W env → W env)) (w : W env)
      (q : Result (Unit {0}) × B)
      → Bare n
      → Writes (after_rebuild_v4 env n true ip rollback w q)
  after_rebuild_v4-Writes n ip rollback w (ok u, s) b = rebuild_v6-Writes n _ _ b
  after_rebuild_v4-Writes n ip rollback w (err e, s) b =
      rebuild_v6-Writes (without_v4 n) rollback _ b
  after_rebuild_v4-Writes n ip rollback w (panic, s) b = panic-Writes rollback w
  after_rebuild_v4-Writes n ip rollback w (no_fuel, s) b = no_fuel-Writes rollback w

  rebuild_v4-Writes :
      (n : EgressTunnel) (rollback : List (W env → W env)) (w : W env)
      → Bare n
      → Writes (rebuild_v4 env n true rollback w)
  unfolding rebuild_v4
  rebuild_v4-Writes n rollback w b =
      if-Writes (n.status.tunnel.ipv4 == "") _ _ (rebuild_v6-Writes n rollback w b) (
        some-Writes w.allocator_v4 _ _ (rebuild_v6-Writes (without_v4 n) rollback w b) (λ s.
          if-Writes (is_to4 (env.text.parse_ip n.status.tunnel.ipv4)) _ _
            (after_rebuild_v4-Writes n _ rollback w _ b) (rebuild_v6-Writes n rollback w b)))

  deferred-Written :
      (b : Body (W env)) (w' : W env) → Writes b → deferred b ≡ (ok tt, w') → Written w'
  unfolding deferred
  deferred-Written b w' (none_outer, q) e =
      let same : deferred b ≡ (b.0, b.2) = rw none_outer in
      let e' = sym same ∙ e in subst Written (ap (λ x. x.1) e') (q (ap (λ x. x.0) e'))

-- When reBuildCache succeeds for a tunnel whose mark is not had again, then it wrote a tunnel
-- that keeps that mark and has no MAC address.
pub re_build_cache-Written :
    {S A B : Type 0} (env : Env S A B) (node : EgressTunnel) (w w' : World S A B) (r : Range A)
    (e : Error)
    → is_empty node.status.mark ≡ false
    → Mark.allocate env.marks w.mark node.status.mark ≡ (err e, r)
    → re_build_cache env node w ≡ (ok tt, w')
    → Written env node.status.mark w'
unfolding re_build_cache rebuild_mark deferred
re_build_cache-Written env node w w' r e full a done =
    let body = rebuild_v4 env (without_mac node) true [] (record w { mark = r }) in
    let same : re_build_cache env node w ≡ deferred body = rw (full, a) in
    let written =
      rebuild_v4-Writes env node.status.mark (without_mac node) [] (record w { mark = r })
        (refl, refl) in
    deferred-Written env node.status.mark body w' written (sym same ∙ done)
