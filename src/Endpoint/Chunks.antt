-- ===== src/Endpoint/Chunks.antt =====
-- Proofs on the loop of Reconcile of pkg/controller/endpoint that makes new slices, and on the
-- size of all the slices that it writes.
use mathlib.Core.List.{append-nil}
use egressgateway.Prelude.{
  ℕ, List, ◌≤◌, ◌<◌, ◌≡◌, ◌∷◌, length, [], ◌++◌, ok, All, arith, suc, Bool-cases, ltb, inl, inr,
  refl, zero,
}
use egressgateway.Endpoint.Objects.{EgressEndpointSlice, EgressEndpoint, Pod}
use egressgateway.Endpoint.Slices.{
  append_endpoints, create_slices, drop, take, plan, sort_slices, need_to_create, fill,
}
use egressgateway.Endpoint.Fill.{
  length-drop, take-drop, length-take, Fits, sort_slices-Fits, fill-Fits,
}
use egressgateway.Ip.Text.{NetText}

-- the endpoints of slices, one slice after the other
unfoldable pub all_endpoints : List EgressEndpointSlice → List EgressEndpoint
all_endpoints [] = []
all_endpoints (slice ∷ slices) = slice.endpoints ++ all_endpoints slices

-- a slice with an endpoint, and not too many
abbrev pub Filled : ℕ → EgressEndpointSlice → Type 0
Filled max slice = (0 < length slice.endpoints) × (length slice.endpoints ≤ max)

module _ (max : ℕ) (some_max : 1 ≤ max) (new_slice : EgressEndpointSlice)
    (bare : new_slice.endpoints ≡ []) where
  new_endpoints : (eps : List EgressEndpoint) → (append_endpoints new_slice eps).endpoints ≡ eps
  new_endpoints eps = rw bare

  -- The loop that makes slices ends, with as much fuel as there are endpoints: its slices hold the
  -- endpoints in order, each of them at least one and at most max, which is at least 1.
  pub create_slices_lem :
      (fuel : ℕ) (create : List EgressEndpoint)
      → length create ≤ fuel
      → (slices : List EgressEndpointSlice) × (create_slices fuel max new_slice create ≡ ok slices)
        × (all_endpoints slices ≡ create)
        × All (Filled max) slices
  unfolding create_slices all_endpoints
  create_slices_lem fuel [] h = ([], refl, refl, tt)
  create_slices_lem zero (ep ∷ create) h = absurd (omega (arith, h))
  create_slices_lem (suc fuel) (ep ∷ create) h =
      let (slices, made, same, filled) =
        create_slices_lem fuel (drop max (ep ∷ create))
          (omega (arith, h, some_max, length-drop max (ep ∷ create))) in
      let whole = new_endpoints (ep ∷ create) in
      let part = new_endpoints (take max (ep ∷ create)) in
      elim (Bool-cases (ltb max (length (ep ∷ create)))) [
        | inl more ↦ (
          append_endpoints new_slice (take max (ep ∷ create)) ∷ slices,
          rw (more, made),
          rw (part, same) (take-drop max (ep ∷ create)),
          (
            rw part (omega (arith, some_max, length-take max (ep ∷ create) (ground (arith, more)))),
            filled,
          ),
        )
        | inr last ↦ (
          append_endpoints new_slice (ep ∷ create) ∷ [],
          rw last,
          rw whole (append-nil (ep ∷ create)),
          (rw whole (ground (arith, last)), tt),
        )
      ]

  -- Where at most max endpoints, which is at least 1, stand in each of the listed slices, Reconcile
  -- gives each slice to be updated or created at most max endpoints, and each new one at least one;
  -- and making the new ones ends.
  pub plan-Filled :
      (t : NetText) (pods : List Pod) (slices : List EgressEndpointSlice)
      → All (Fits max) slices
      → let planned = plan t max pods slices in
        (creates : List EgressEndpointSlice) × (create_slices
            (length planned.1)
            max
            new_slice
            planned.1
          ≡ ok creates)
        × (all_endpoints creates ≡ planned.1)
        × All (Fits max) planned.0
        × All (Filled max) creates
  unfolding plan
  plan-Filled t pods slices h =
      let sorted = sort_slices t pods slices in
      let (in_update, in_rest) = sort_slices-Fits max t pods slices h in
      let create = need_to_create t sorted.keys pods in
      let left = (fill max sorted.to_update sorted.not_change create).1 in
      let (creates, made, same, filled) = create_slices_lem (length left) left (omega arith) in
      (
        creates,
        made,
        same,
        fill-Fits max sorted.to_update sorted.not_change create in_update in_rest,
        filled,
      )
