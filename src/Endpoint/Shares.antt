-- ===== src/Endpoint/Shares.antt =====
-- Proofs on which endpoints Reconcile of pkg/controller/endpoint leaves in all the slices.
use egressgateway.Prelude.{
  none, some, inl, inr, refl, true, List, ◌++◌, ◌≡◌, ◌||◌, map, ℕ, if◌then◌else◌, ◌∷◌, arith, ltb,
  ◌+◌, [], ap, Option-cases,
}
use egressgateway.Endpoint.Pods.{
  new_endpoint, Key, has_key, find_pod, endpoint_key, pod_key, key_eq,
}
use egressgateway.Ip.Text.{NetText}
use egressgateway.Endpoint.Slices.{
  need_to_create, Sorted, sort_slices, filter_endpoints, fill, plan, fill_update, fill_not_change,
}
use egressgateway.Endpoint.Tally.{
  addressed, tally, tally_slices, is_there, key_eq-eq, left_alone, filter_endpoints-tally,
  fill_update-tally, fill_not_change-tally, tally_slices-append,
}
use egressgateway.Endpoint.Objects.{Pod, EgressEndpoint, EgressEndpointSlice}

-- newEndpoint names the pod
new_endpoint-key :
    (t : NetText) (pod : Pod) (ep : EgressEndpoint)
    → new_endpoint t pod ≡ some ep
    → endpoint_key ep ≡ pod_key pod
unfolding new_endpoint
new_endpoint-key t pod ep h = ground arith

abbrev alone :
    ℕ
    → List EgressEndpointSlice
    → List EgressEndpointSlice
    → List EgressEndpoint
    → List EgressEndpointSlice
alone max to_update not_change [] = not_change
alone max to_update not_change (ep ∷ create) =
    left_alone max not_change (fill_update max to_update (ep ∷ create)).1

-- the slices that Reconcile neither updates nor deletes
unfoldable pub untouched :
    NetText → ℕ → List Pod → List EgressEndpointSlice → List EgressEndpointSlice
untouched t max pods slices =
    let sorted = sort_slices t pods slices in
    alone max sorted.to_update sorted.not_change (need_to_create t sorted.keys pods)

module _ (k : Key) where
  has_key-append : (xs ys : List Key) → has_key k (xs ++ ys) ≡ (has_key k xs || has_key k ys)
  unfolding has_key
  has_key-append [] ys = refl
  has_key-append (x ∷ xs) ys = ground (arith, has_key-append xs ys)

  has_key-endpoints :
      (eps : List EgressEndpoint) → has_key k (map endpoint_key eps) ≡ ltb 0 (tally k eps)
  unfolding has_key tally
  has_key-endpoints [] = refl
  has_key-endpoints (ep ∷ eps) = ground (arith, has_key-endpoints eps)

  module _ (t : NetText) (pods : List Pod) where
    abbrev in_slices : Sorted → ℕ
    in_slices sorted = tally_slices k sorted.to_update + tally_slices k sorted.not_change

    sort_slices-tally :
        (slices : List EgressEndpointSlice)
        → in_slices (sort_slices t pods slices)
          ≡ (if is_there (find_pod k pods) then tally_slices k slices else 0)
    unfolding sort_slices tally_slices
    sort_slices-tally [] = ground arith
    sort_slices-tally (slice ∷ slices) =
        let kept = filter_endpoints-tally k t pods slice.endpoints in
        ground (arith, kept, sort_slices-tally slices)

    sort_slices-keys :
        (slices : List EgressEndpointSlice)
        → has_key k (sort_slices t pods slices).keys ≡ ltb 0 (in_slices (sort_slices t pods slices))
    unfolding sort_slices tally_slices has_key
    sort_slices-keys [] = refl
    sort_slices-keys (slice ∷ slices) =
        let filtered = filter_endpoints t pods slice.endpoints in
        let mine = has_key-endpoints filtered.1 in
        let both = has_key-append (map endpoint_key filtered.1) (sort_slices t pods slices).keys in
        ground (arith, mine, both, sort_slices-keys slices)

  need_to_create-tally :
      (t : NetText) (keys : List Key) (pods : List Pod)
      → tally k (need_to_create t keys pods) ≡ (if has_key k keys then 0 else addressed k t pods)
  unfolding need_to_create tally addressed
  need_to_create-tally t keys [] = ground arith
  need_to_create-tally t keys (pod ∷ pods) =
      let rest = need_to_create-tally t keys pods in
      let same : key_eq (pod_key pod) k ≡ true → has_key (pod_key pod) keys ≡ has_key k keys =
        λ h. ap (λ x. has_key x keys) (key_eq-eq (pod_key pod) k h) in
      let named : (ep : EgressEndpoint)
          → new_endpoint t pod ≡ some ep
          → key_eq (endpoint_key ep) k ≡ key_eq (pod_key pod) k =
        λ ep h. ap (λ x. key_eq x k) (new_endpoint-key t pod ep h) in
      elim (Option-cases (new_endpoint t pod)) [
        | inl nothing ↦ ground (arith, nothing, same, rest)
        | inr (ep, made) ↦ ground (arith, made, named ep made, same, rest)
      ]

  addressed-gone : (t : NetText) (pods : List Pod) → find_pod k pods ≡ none → addressed k t pods ≡ 0
  unfolding addressed find_pod
  addressed-gone t [] h = refl
  addressed-gone t (pod ∷ pods) h = ground (arith, addressed-gone t pods)

  fill-tally :
      (max : ℕ) (to_update not_change : List EgressEndpointSlice) (create : List EgressEndpoint)
      → let filled = fill max to_update not_change create in
        tally_slices k filled.0
          + tally k filled.1
          + tally_slices k (alone max to_update not_change create)
        ≡ tally_slices k to_update + tally_slices k not_change + tally k create
  unfolding fill tally
  fill-tally max to_update not_change [] = omega arith
  fill-tally max to_update not_change (ep ∷ eps) =
      let updates = fill_update max to_update (ep ∷ eps) in
      let changes = fill_not_change max not_change updates.1 in
      omega (
        arith,
        fill_update-tally k max to_update (ep ∷ eps),
        fill_not_change-tally k max not_change updates.1,
        tally_slices-append k updates.0 changes.0,
      )

  -- How many endpoints of a pod's key Reconcile leaves: in the slices that it updates, among those
  -- that go to new slices, and in the slices that it does not touch. None without such a pod; with
  -- one as many as were listed, or else, when none was listed, one for each pod of the key that has
  -- an address.
  pub plan-tally :
      (t : NetText) (max : ℕ) (pods : List Pod) (slices : List EgressEndpointSlice)
      → let planned = plan t max pods slices in
        tally_slices k planned.0 + tally k planned.1 + tally_slices k (untouched t max pods slices)
        ≡ (if is_there (find_pod k pods)
            then if ltb 0 (tally_slices k slices) then tally_slices k slices else addressed k t pods
            else 0)
  unfolding plan untouched
  plan-tally t max pods slices =
      let sorted = sort_slices t pods slices in
      let create = need_to_create t sorted.keys pods in
      let filled = fill-tally max sorted.to_update sorted.not_change create in
      let kept = sort_slices-tally t pods slices in
      let keys = sort_slices-keys t pods slices in
      let made = need_to_create-tally t sorted.keys pods in
      elim (Option-cases (find_pod k pods)) [
        | inl gone ↦ ground (arith, gone, filled, kept, keys, made, addressed-gone t pods gone)
        | inr (pod, there) ↦ ground (arith, there, filled, kept, keys, made)
      ]
