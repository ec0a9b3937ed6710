-- ===== src/Endpoint/Slices.antt =====
-- pkg/controller/endpoint/endpoint_slice.go: how Reconcile shares the endpoints out over the
-- slices; cluster_endpoint_slice.go has the same statements for its slices.
use egressgateway.Prelude.{
  ℕ, zero, suc, ◌-◌, Bool, true, false, ◌||◌, ltb, if◌then◌else◌, List, [], ◌∷◌, ◌++◌, none, some,
  length, Result, ok, no_fuel, ◌>>=◌, map,
}
use egressgateway.Ip.Text.{NetText}
use egressgateway.Endpoint.Objects.{EgressEndpoint, EgressEndpointSlice, Pod}
use egressgateway.Endpoint.Pods.{
  Key, pod_key, endpoint_key, new_endpoint, need_update_endpoint, find_pod, has_key,
}

-- xs[:n] and xs[n:]; the callers see to it that n is at most the length
abbrev pub take : {A : Type 0} → ℕ → List A → List A
take zero xs = []
take (suc n) [] = []
take (suc n) (x ∷ xs) = x ∷ take n xs

abbrev pub drop : {A : Type 0} → ℕ → List A → List A
drop zero xs = xs
drop (suc n) [] = []
drop (suc n) (x ∷ xs) = drop n xs

-- slice.Endpoints = append(slice.Endpoints, endpoints...)
abbrev pub append_endpoints : EgressEndpointSlice → List EgressEndpoint → EgressEndpointSlice
append_endpoints slice endpoints = record slice { endpoints = slice.endpoints ++ endpoints }

-- the slices by whether they changed, and the keys of existingKeyMap
pub record Sorted : Type 0 where
  pub to_update : List EgressEndpointSlice
  pub not_change : List EgressEndpointSlice
  pub keys : List Key

module _ (t : NetText) where
  -- the endpoints of a slice whose pods are there, brought up to date, and whether any changed
  unfoldable pub filter_endpoints : List Pod → List EgressEndpoint → Bool × List EgressEndpoint
  filter_endpoints pods [] = (false, [])
  filter_endpoints pods (ep ∷ eps) =
      let rest = filter_endpoints pods eps in
      elim (find_pod (endpoint_key ep) pods) [
        | none ↦ (true, rest.1)
        | some pod ↦
            let updated = need_update_endpoint t pod ep in (updated.0 || rest.0, updated.1 ∷ rest.1)
      ]

  -- the first loop of Reconcile
  unfoldable pub sort_slices : List Pod → List EgressEndpointSlice → Sorted
  unfolding filter_endpoints
  sort_slices pods [] = record { to_update = []; not_change = []; keys = [] }
  sort_slices pods (slice ∷ slices) =
      let filtered = filter_endpoints pods slice.endpoints in
      let kept = record slice { endpoints = filtered.1 } in
      let rest = sort_slices pods slices in
      let keys = map endpoint_key filtered.1 ++ rest.keys in
      if filtered.0
      then record rest { to_update = kept ∷ rest.to_update; keys = keys }
      else record rest { not_change = kept ∷ rest.not_change; keys = keys }

  -- the second loop: the endpoints of the pods that no slice has
  unfoldable pub need_to_create : List Key → List Pod → List EgressEndpoint
  need_to_create keys [] = []
  need_to_create keys (pod ∷ pods) =
      let rest = need_to_create keys pods in
      if has_key (pod_key pod) keys
      then rest
      else elim (new_endpoint t pod) [ none ↦ rest | some ep ↦ ep ∷ rest ]

-- the loops that fill up the slices to update, and those that did not change, of which it gives
-- the ones that are to be updated now; and what is left to create
unfoldable pub fill_update :
    ℕ
    → List EgressEndpointSlice
    → List EgressEndpoint
    → List EgressEndpointSlice × List EgressEndpoint
fill_update max [] create = ([], create)
fill_update max (slice ∷ slices) create =
    let count = max - length slice.endpoints in
    let has_room = ltb (length slice.endpoints) max in
    let rest = fill_update max slices (if has_room then drop count create else create) in
    if has_room
    then if ltb count (length create)
      then (append_endpoints slice (take count create) ∷ rest.0, rest.1)
      else (append_endpoints slice create ∷ slices, [])
    else (slice ∷ rest.0, rest.1)

unfoldable pub fill_not_change :
    ℕ
    → List EgressEndpointSlice
    → List EgressEndpoint
    → List EgressEndpointSlice × List EgressEndpoint
fill_not_change max [] create = ([], create)
fill_not_change max (slice ∷ slices) create =
    let count = max - length slice.endpoints in
    let has_room = ltb (length slice.endpoints) max in
    let rest = fill_not_change max slices (if has_room then drop count create else create) in
    if has_room
    then if ltb count (length create)
      then (append_endpoints slice (take count create) ∷ rest.0, rest.1)
      else (append_endpoints slice create ∷ [], [])
    else rest

-- the two of them, which run when there is an endpoint to create
unfoldable pub fill :
    ℕ
    → List EgressEndpointSlice
    → List EgressEndpointSlice
    → List EgressEndpoint
    → List EgressEndpointSlice × List EgressEndpoint
unfolding fill_update fill_not_change
fill max to_update not_change [] = (to_update, [])
fill max to_update not_change (ep ∷ create) =
    let updates = fill_update max to_update (ep ∷ create) in
    let changes = fill_not_change max not_change updates.1 in (updates.0 ++ changes.0, changes.1)

-- the slices to update, and the endpoints that are left for new ones
unfoldable pub plan :
    NetText
    → ℕ
    → List Pod
    → List EgressEndpointSlice
    → List EgressEndpointSlice × List EgressEndpoint
unfolding sort_slices need_to_create fill
plan t max pods slices =
    let sorted = sort_slices t pods slices in
    fill max sorted.to_update sorted.not_change (need_to_create t sorted.keys pods)

-- the loop that makes new slices
unfoldable pub create_slices :
    ℕ → ℕ → EgressEndpointSlice → List EgressEndpoint → Result (List EgressEndpointSlice)
create_slices fuel max new_slice [] = ok []
create_slices zero max new_slice (ep ∷ create) = no_fuel
create_slices (suc fuel) max new_slice (ep ∷ create) =
    let rest = create_slices fuel max new_slice (drop max (ep ∷ create)) in
    if ltb max (length (ep ∷ create))
    then (rest >>= λ slices. ok (append_endpoints new_slice (take max (ep ∷ create)) ∷ slices))
    else ok (append_endpoints new_slice (ep ∷ create) ∷ [])
