-- ===== src/Tunnel/Marks.antt =====
-- Proofs on which marks are held after keepEgressTunnel and deleteEgressTunnel of
-- pkg/controller/tunnel/egress_tunnel.go.
use mathlib.Core.Path.{subst}
use egressgateway.Prelude.{
  ℕ, ◌<◌, ◌≡◌, ◌≢◌, refl, sym, ap, ◌∙◌, true, false, ◌==◌, [], ◌∷◌, none, Result, ok, arith, ◌⊎◌,
}
use egressgateway.Prelude.Int.{ℤ}
use egressgateway.Api.{EgressTunnel}
use egressgateway.MarkAllocator.Text.{Bytes, parse}
use egressgateway.MarkAllocator.Range as Mark
use egressgateway.MarkAllocator.Range.{IsAllocator, Range}
use egressgateway.MarkAllocator.Holding.{IsRange, allocate_next_lem, release_lem}
use egressgateway.Tunnel.World.{Env, call, on_server, deferred}
use egressgateway.Tunnel.Update.{is_empty}
use egressgateway.Tunnel.Keep.{W, keep_egress_tunnel, keep_mark, keep_v4, keep_v6, keep_end}
use egressgateway.Tunnel.Release.{delete_egress_tunnel}
use egressgateway.Tunnel.Leaks.{keep_egress_tunnel-mark, release_egress_tunnel-mark}

module _ {S A B : Type 0} (env : Env S A B) where
  call-mark : (q : Result (Unit {0}) × S) (w : W env) → (on_server w q).1.mark ≡ w.mark
  call-mark (ok u, s) w = refl
  call-mark (_, s) w = refl

  is_empty-mark : (m : Bytes) (v : ℕ) → parse m ≡ ok v → is_empty m ≡ false
  unfolding parse
  is_empty-mark [] v e = ground arith
  is_empty-mark (c ∷ m) v e = refl

  module _ (size : A → ℤ) (law : IsAllocator env.marks size) (w : W env) (n : ℕ)
      (node : EgressTunnel) (range : IsRange size w.mark n) where
    -- When keepEgressTunnel takes the mark m for a tunnel without one, then nobody had m; and
    -- whatever the result, an error included, m is held afterwards, the range stays well formed, and
    -- no mark of another number changes.
    pub keep_egress_tunnel-holds :
        (m : Bytes) (r : Range A)
        → node.status.mark ≡ []
        → Mark.allocate_next env.marks w.mark ≡ (ok m, r)
        → let w' = (keep_egress_tunnel env node w).1 in
          (Mark.has env.marks w.mark m ≡ false)
          × (Mark.has env.marks w'.mark m ≡ true)
          × IsRange size w'.mark n
          × ((m' : Bytes)
              → parse m' ≢ parse m
              → Mark.has env.marks w'.mark m' ≡ Mark.has env.marks w.mark m')
    keep_egress_tunnel-holds m r none_yet a =
        let (v, p, lo, hi, free, held, range', other) =
          allocate_next_lem env.marks size law w.mark n range m r a in
        let left = keep_egress_tunnel-mark env node w m r none_yet a in
        (
          free,
          ap (λ x. Mark.has env.marks x m) left ∙ held,
          subst (λ x. IsRange size x n) (sym left) range',
          (λ m' ne. ap (λ x. Mark.has env.marks x m') left ∙ other m' (λ e. ne (e ∙ sym p))),
        )

    -- deleteEgressTunnel of a tunnel with a mark inside the range: whatever the result, a failed
    -- Delete included, nobody has the mark afterwards, the range stays well formed, and no mark of
    -- another number changes.
    pub delete_egress_tunnel-frees :
        (v : ℕ)
        → parse node.status.mark ≡ ok v
        → w.mark.start < v
        → v < w.mark.end
        → let w' = (delete_egress_tunnel env node w).1 in
          (Mark.has env.marks w'.mark node.status.mark ≡ false)
          × IsRange size w'.mark n
          × ((m' : Bytes)
              → parse m' ≢ ok v
              → Mark.has env.marks w'.mark m' ≡ Mark.has env.marks w.mark m')
    unfolding delete_egress_tunnel
    delete_egress_tunnel-frees v p lo hi =
        let (done, gone, range', other) =
          release_lem env.marks size law w.mark n range node.status.mark v p lo hi in
        let r = (Mark.release env.marks w.mark node.status.mark).1 in
        let released : Mark.release env.marks w.mark node.status.mark ≡ (ok tt, r) =
          ground (arith, done) in
        let left =
          release_egress_tunnel-mark env node (call (env.client.delete_tunnel node))
            (λ x. call-mark (env.client.delete_tunnel node x.server) x) w r
            (is_empty-mark node.status.mark v p) released in
        (
          ap (λ x. Mark.has env.marks x node.status.mark) left ∙ gone,
          subst (λ x. IsRange size x n) (sym left) range',
          (λ m' ne. ap (λ x. Mark.has env.marks x m') left ∙ other m' ne),
        )

  -- keepEgressTunnel of a tunnel that has its mark, and each address of a version that is allocated,
  -- succeeds and changes nothing: it writes nothing, also where the MAC address is wanted.
  pub keep_egress_tunnel-idle :
      (node : EgressTunnel) (w : W env)
      → is_empty node.status.mark ≡ false
      → ((node.status.tunnel.ipv4 == "") ≡ false) ⊎ (w.allocator_v4 ≡ none)
      → ((node.status.tunnel.ipv6 == "") ≡ false) ⊎ (w.allocator_v6 ≡ none)
      → keep_egress_tunnel env node w ≡ (ok tt, w)
  unfolding keep_egress_tunnel keep_mark keep_v4 keep_v6 keep_end deferred
  keep_egress_tunnel-idle node w m c4 c6 = ground arith
