-- ===== src/Endpoint/Agree.antt =====
-- Proofs on needUpdateEndpoint of pkg/controller/endpoint/endpoint_slice.go, and on the Reconcile of
-- slices that agree with the pods.
use egressgateway.Prelude.{
  refl, true, false, List, String, length, ◌≡◌, ◌∷◌, arith, eq_refl, ◌↔◌, ap, sym, [], eq_iff,
  if◌then◌else◌, ◌∙◌, not, ◌==◌,
}
use egressgateway.Ip.Text.{NetText}
use egressgateway.Endpoint.Pods.{need_update_endpoint, elements_equal, slice_equal, ips_v4, ips_v6}
use egressgateway.Endpoint.Objects.{Pod, EgressEndpoint}
use egressgateway.Prelude.Sort.{sort_strings}

elements_equal-eq : (a b : List String) → length a ≡ length b → elements_equal a b ≡ true → a ≡ b
elements_equal-eq [] [] n h = refl
elements_equal-eq [] (y ∷ b) n h = absurd (omega (arith, n))
elements_equal-eq (x ∷ a) [] n h = absurd (omega (arith, n))
elements_equal-eq (x ∷ a) (y ∷ b) n h =
    let head = (eq_iff x y).0 (ground (arith, h)) in
    let tail = elements_equal-eq a b (omega (arith, n)) (ground (arith, h)) in λ i. head i ∷ tail i

elements_equal_refl : (a : List String) → elements_equal a a ≡ true
elements_equal_refl [] = refl
elements_equal_refl (x ∷ a) = ground (arith, eq_refl x, elements_equal_refl a)

slice_equal-eq : (a b : List String) → slice_equal a b ≡ true → a ≡ b
slice_equal-eq a b h = elements_equal-eq a b (ground (arith, h)) (ground (arith, h))

slice_equal_refl : (a : List String) → slice_equal a a ≡ true
slice_equal_refl a = ground (arith, elements_equal_refl a)

-- the endpoint that the pod has now, where ep was
abbrev pub current : NetText → Pod → EgressEndpoint → EgressEndpoint
current t pod ep = record ep {
  ipv4 = sort_strings (ips_v4 t pod.pod_ips);
  ipv6 = sort_strings (ips_v6 t pod.pod_ips);
  node = pod.node_name;
}

need_update_endpoint-current :
    (t : NetText) (pod : Pod) (ep : EgressEndpoint)
    → (need_update_endpoint t pod ep).1 ≡ current t pod ep
unfolding need_update_endpoint
need_update_endpoint-current t pod ep =
    let v4 = sort_strings (ips_v4 t pod.pod_ips) in
    let v6 = sort_strings (ips_v6 t pod.pod_ips) in
    let same_v4 : (if not (slice_equal v4 ep.ipv4) then v4 else ep.ipv4) ≡ v4 =
      ground (arith, slice_equal-eq v4 ep.ipv4) in
    let same_v6 : (if not (slice_equal v6 ep.ipv6) then v6 else ep.ipv6) ≡ v6 =
      ground (arith, slice_equal-eq v6 ep.ipv6) in
    let same_node : (if not (pod.node_name == ep.node) then pod.node_name else ep.node)
        ≡ pod.node_name =
      ground (arith, (eq_iff pod.node_name ep.node).0) in
    λ i. record ep { ipv4 = same_v4 i; ipv6 = same_v6 i; node = same_node i }

need_update_endpoint-same :
    (t : NetText) (pod : Pod) (ep : EgressEndpoint)
    → (need_update_endpoint t pod ep).0 ≡ false
    → (need_update_endpoint t pod ep).1 ≡ ep
unfolding need_update_endpoint
need_update_endpoint-same t pod ep h = ground (arith, h)

need_update_endpoint-unneeded :
    (t : NetText) (pod : Pod) (ep : EgressEndpoint)
    → current t pod ep ≡ ep
    → (need_update_endpoint t pod ep).0 ≡ false
unfolding need_update_endpoint
need_update_endpoint-unneeded t pod ep e =
    let v4 = slice_equal_refl ep.ipv4 in
    let v6 = slice_equal_refl ep.ipv6 in
    let node = eq_refl ep.node in
    ground (arith, v4, v6, node, ap (λ x. x.ipv4) e, ap (λ x. x.ipv6) e, ap (λ x. x.node) e)

-- needUpdateEndpoint gives the endpoint the pod's sorted addresses and its node, and says that an
-- update is needed exactly when that changes the endpoint.
pub need_update_endpoint_lem :
    (t : NetText) (pod : Pod) (ep : EgressEndpoint)
    → ((need_update_endpoint t pod ep).1 ≡ current t pod ep)
      × (((need_update_endpoint t pod ep).0 ≡ false) ↔ (current t pod ep ≡ ep))
need_update_endpoint_lem t pod ep =
    let now = need_update_endpoint-current t pod ep in
    (
      now,
      (
        (λ h. sym now ∙ need_update_endpoint-same t pod ep h),
        need_update_endpoint-unneeded t pod ep,
      ),
    )
