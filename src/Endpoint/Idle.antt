-- ===== src/Endpoint/Idle.antt =====
-- Proofs that Reconcile of pkg/controller/endpoint writes nothing where slices and pods agree.
use egressgateway.Prelude.{
  none, some, refl, true, false, ok, List, All, ◌≡◌, ◌∷◌, ◌⊎◌, [], map, arith, All-left, All-right,
  ℕ,
}
use mathlib.Core.List.{map-append}
use egressgateway.Ip.Text.{NetText}
use egressgateway.Endpoint.Slices.{
  need_to_create, filter_endpoints, sort_slices, plan, fill, create_slices,
}
use egressgateway.Endpoint.Objects.{
  Pod, EgressEndpoint, EgressEndpointSlice, EndpointClient, EndpointConfig,
}
use egressgateway.Endpoint.Pods.{Key, has_key, find_pod, pod_key, endpoint_key, new_endpoint}
use egressgateway.Endpoint.Chunks.{all_endpoints}
use egressgateway.Endpoint.Agree.{current, need_update_endpoint_lem}
use egressgateway.Endpoint.Sync.{sync_slices, write_slices, write_each, to_write, to_delete}

module _ (t : NetText) (pods : List Pod) where
  -- the endpoint of a pod that is there, with the pod's sorted addresses and its node
  abbrev pub Agrees : EgressEndpoint → Type 0
  Agrees ep = (pod : Pod) × (find_pod (endpoint_key ep) pods ≡ some pod) × (current t pod ep ≡ ep)

  filter_endpoints-Agrees :
      (eps : List EgressEndpoint) → All Agrees eps → filter_endpoints t pods eps ≡ (false, eps)
  unfolding filter_endpoints
  filter_endpoints-Agrees [] h = refl
  filter_endpoints-Agrees (ep ∷ eps) ((pod, there, same), h) =
      let (now, unneeded) = need_update_endpoint_lem t pod ep in
      ground (arith, there, filter_endpoints-Agrees eps h, now, unneeded.1 same, same)

  sort_slices-Agrees :
      (slices : List EgressEndpointSlice)
      → All Agrees (all_endpoints slices)
      → sort_slices t pods slices ≡ record {
        to_update = [];
        not_change = slices;
        keys = map endpoint_key (all_endpoints slices);
      }
  unfolding sort_slices all_endpoints
  sort_slices-Agrees [] h = refl
  sort_slices-Agrees (slice ∷ slices) h =
      let here = filter_endpoints-Agrees slice.endpoints (All-left Agrees slice.endpoints _ h) in
      let rest = sort_slices-Agrees slices (All-right Agrees slice.endpoints _ h) in
      rw (here, rest, map-append endpoint_key slice.endpoints (all_endpoints slices))

-- a pod that one of the keys names, or that has no address
abbrev pub Listed : NetText → List Key → Pod → Type 0
Listed t keys pod = (has_key (pod_key pod) keys ≡ true) ⊎ (new_endpoint t pod ≡ none)

need_to_create-Listed :
    (t : NetText) (keys : List Key) (pods : List Pod)
    → All (Listed t keys) pods
    → need_to_create t keys pods ≡ []
unfolding need_to_create
need_to_create-Listed t keys [] h = refl
need_to_create-Listed t keys (pod ∷ pods) (listed, h) =
    ground (arith, need_to_create-Listed t keys pods h, listed)

plan-Agrees :
    (t : NetText) (max : ℕ) (pods : List Pod) (slices : List EgressEndpointSlice)
    → All (Agrees t pods) (all_endpoints slices)
    → All (Listed t (map endpoint_key (all_endpoints slices))) pods
    → plan t max pods slices ≡ ([], [])
unfolding plan fill
plan-Agrees t max pods slices agree listed =
    let sorted = sort_slices-Agrees t pods slices agree in
    let none_new = need_to_create-Listed t (map endpoint_key (all_endpoints slices)) pods listed in
    rw (sorted, none_new)

-- Reconcile writes nothing and changes nothing, and gives no error, where each endpoint of the
-- slices has a pod, whose sorted addresses and node it holds, and each pod has an endpoint or no
-- address.
pub sync_slices-idle :
    {S : Type 0} (client : EndpointClient S) (cfg : EndpointConfig) (t : NetText)
    (new_slice : EgressEndpointSlice) (pods : List Pod) (slices : List EgressEndpointSlice) (s : S)
    → All (Agrees t pods) (all_endpoints slices)
    → All (Listed t (map endpoint_key (all_endpoints slices))) pods
    → sync_slices client cfg t new_slice pods slices s ≡ (ok [], s)
unfolding sync_slices write_slices create_slices write_each to_write to_delete
sync_slices-idle client cfg t new_slice pods slices s agree listed =
    rw (plan-Agrees t cfg.max_number_endpoint_per_slice pods slices agree listed)
