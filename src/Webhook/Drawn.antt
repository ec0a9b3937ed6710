-- ===== src/Webhook/Drawn.antt =====
-- Proofs on the default address that EgressGatewayMutate of
-- pkg/egressgateway/egress_gateway_webhook.go draws.
use egressgateway.Prelude.{
  some, true, false, ok, zero, suc, refl, inl, inr, List, ℕ, ◌<◌, String, length, get_elem?, Any,
  ◌≡◌, arith, ◌∷◌, [],
}
use egressgateway.Webhook.Defaults.{draw_patch, default_eip_patch, PatchValue}
use egressgateway.Ip.Text.{Host}
use egressgateway.Ip.Address.{Ip}
use egressgateway.Webhook.GatewayChecks.{is_none_of}
use egressgateway.Ip.Merge.{merge_ip_ranges}
use egressgateway.Ip.Range.{parse_ip_ranges}

get_elem?-lt :
    {A : Type 0} (xs : List A) (i : ℕ)
    → i < length xs
    → (x : A) × (get_elem? xs i ≡ some x) × Any (λ y. y ≡ x) xs
get_elem?-lt [] i h = absurd (omega (arith, h))
get_elem?-lt (x ∷ xs) zero h = (x, refl, inl refl)
get_elem?-lt (x ∷ xs) (suc i) h =
    let (y, e, there) = get_elem?-lt xs i (omega (arith, h)) in (y, e, inr there)

draw_patch-drawn :
    (h : Host) (intn : ℕ → ℕ) (path : String) (ips : List Ip)
    → 0 < length ips
    → intn (length ips) < length ips
    → (ip : Ip) × Any (λ y. y ≡ ip) ips
      × (draw_patch h intn path ips
          ≡ ok (record { path = path; value = PatchValue.text (h.text.ip_string ip) } ∷ []))
unfolding draw_patch
draw_patch-drawn h intn path [] some_ips below = absurd (omega (arith, some_ips))
draw_patch-drawn h intn path (ip ∷ ips) some_ips below =
    let (drawn, e, there) = get_elem?-lt (ip ∷ ips) (intn (length (ip ∷ ips))) below in
    (drawn, there, rw (e, draw_patch))

-- For a version that is enabled, where the gateway names no default address and its pool is read as
-- at least one address, the webhook patches in the text of one of these, when the generator gives a
-- number below the bound.
default_eip_patch-drawn :
    (h : Host) (intn : ℕ → ℕ) (version : ℕ) (path : String) (pool ranges : List String)
    (ips : List Ip)
    → is_none_of pool ≡ false
    → merge_ip_ranges h version pool ≡ ok ranges
    → parse_ip_ranges h version ranges ≡ ok ips
    → 0 < length ips
    → intn (length ips) < length ips
    → (ip : Ip) × Any (λ y. y ≡ ip) ips
      × (default_eip_patch h intn true version path "" pool
          ≡ ok (record { path = path; value = PatchValue.text (h.text.ip_string ip) } ∷ []))
unfolding default_eip_patch
default_eip_patch-drawn h intn version path pool ranges ips full merged read some_ips below =
    let (ip, there, drawn) = draw_patch-drawn h intn path ips some_ips below in
    (ip, there, rw (full, merged, read, drawn))
