-- ===== src/Endpoint/Fill.antt =====
-- Proofs on how many endpoints a slice gets from Reconcile of pkg/controller/endpoint.
use egressgateway.Prelude.{
  ℕ, zero, suc, ◌+◌, ◌-◌, ◌≤◌, ◌≡◌, refl, ltb, List, [], ◌∷◌, ◌++◌, All, length, length-append,
  arith, Bool-cases, Option-cases, All-append, inl, inr,
}
use egressgateway.Endpoint.Objects.{EgressEndpoint, EgressEndpointSlice, Pod}
use egressgateway.Endpoint.Slices.{
  take, drop, append_endpoints, fill_update, fill_not_change, fill, filter_endpoints, sort_slices,
}
use egressgateway.Ip.Text.{NetText}
use egressgateway.Endpoint.Pods.{find_pod, endpoint_key}

pub length-take : {A : Type 0} (n : ℕ) (xs : List A) → n ≤ length xs → length (take n xs) ≡ n
length-take zero xs h = refl
length-take (suc n) [] h = omega (arith, h)
length-take (suc n) (x ∷ xs) h = omega (arith, length-take n xs (omega (arith, h)))

pub length-drop : {A : Type 0} (n : ℕ) (xs : List A) → length (drop n xs) ≡ length xs - n
length-drop zero xs = omega arith
length-drop (suc n) [] = omega arith
length-drop (suc n) (x ∷ xs) = omega (arith, length-drop n xs)

pub take-drop : {A : Type 0} (n : ℕ) (xs : List A) → take n xs ++ drop n xs ≡ xs
take-drop zero xs = refl
take-drop (suc n) [] = refl
take-drop (suc n) (x ∷ xs) = rw (take-drop n xs)

module _ (max : ℕ) where
  -- a slice with at most max endpoints
  abbrev pub Fits : EgressEndpointSlice → Type 0
  Fits slice = length slice.endpoints ≤ max

  append_endpoints-Fits :
      (slice : EgressEndpointSlice) (eps : List EgressEndpoint)
      → length slice.endpoints + length eps ≤ max
      → Fits (append_endpoints slice eps)
  append_endpoints-Fits slice eps h = rw (length-append slice.endpoints eps) h

  fill_update-Fits :
      (slices : List EgressEndpointSlice) (create : List EgressEndpoint)
      → All Fits slices
      → All Fits (fill_update max slices create).0
  unfolding fill_update
  fill_update-Fits [] create h = tt
  fill_update-Fits (slice ∷ slices) create (fits, h) =
      let count = max - length slice.endpoints in
      elim (Bool-cases (ltb (length slice.endpoints) max)) [
        | inr full ↦ rw full (fits, fill_update-Fits slices create h)
        | inl room ↦ elim (Bool-cases (ltb count (length create))) [
          | inl more ↦
              let some_fit =
                append_endpoints-Fits slice (take count create)
                  (ground (arith, length-take count create)) in
              rw (room, more) (some_fit, fill_update-Fits slices (drop count create) h)
          | inr last ↦ rw (room, last) (append_endpoints-Fits slice create (ground arith), h)
        ]
      ]

  fill_not_change-Fits :
      (slices : List EgressEndpointSlice) (create : List EgressEndpoint)
      → All Fits slices
      → All Fits (fill_not_change max slices create).0
  unfolding fill_not_change
  fill_not_change-Fits [] create h = tt
  fill_not_change-Fits (slice ∷ slices) create (fits, h) =
      let count = max - length slice.endpoints in
      elim (Bool-cases (ltb (length slice.endpoints) max)) [
        | inr full ↦ rw full (fill_not_change-Fits slices create h)
        | inl room ↦ elim (Bool-cases (ltb count (length create))) [
          | inl more ↦
              let some_fit =
                append_endpoints-Fits slice (take count create)
                  (ground (arith, length-take count create)) in
              rw (room, more) (some_fit, fill_not_change-Fits slices (drop count create) h)
          | inr last ↦ rw (room, last) (append_endpoints-Fits slice create (ground arith), tt)
        ]
      ]

  pub fill-Fits :
      (to_update not_change : List EgressEndpointSlice) (create : List EgressEndpoint)
      → All Fits to_update
      → All Fits not_change
      → All Fits (fill max to_update not_change create).0
  unfolding fill
  fill-Fits to_update not_change [] h k = h
  fill-Fits to_update not_change (ep ∷ create) h k =
      let updates = fill_update max to_update (ep ∷ create) in
      All-append Fits updates.0 _ (fill_update-Fits to_update (ep ∷ create) h)
        (fill_not_change-Fits not_change updates.1 k)

  module _ (t : NetText) (pods : List Pod) where
    length-filter_endpoints :
        (eps : List EgressEndpoint) → length (filter_endpoints t pods eps).1 ≤ length eps
    unfolding filter_endpoints
    length-filter_endpoints [] = omega arith
    length-filter_endpoints (ep ∷ eps) = elim (Option-cases (find_pod (endpoint_key ep) pods)) [
      | inl gone ↦ rw (gone, length) (omega (arith, length-filter_endpoints eps))
      | inr (pod, there) ↦ rw (there, length) (omega (arith, length-filter_endpoints eps))
    ]

    pub sort_slices-Fits :
        (slices : List EgressEndpointSlice)
        → All Fits slices
        → All Fits (sort_slices t pods slices).to_update
          × All Fits (sort_slices t pods slices).not_change
    unfolding sort_slices
    sort_slices-Fits [] h = (tt, tt)
    sort_slices-Fits (slice ∷ slices) (fits, h) =
        let (in_update, in_rest) = sort_slices-Fits slices h in
        let kept : length (filter_endpoints t pods slice.endpoints).1 ≤ max =
          omega (arith, fits, length-filter_endpoints slice.endpoints) in
        elim (Bool-cases (filter_endpoints t pods slice.endpoints).0) [
          | inl changed ↦ rw changed ((kept, in_update), in_rest)
          | inr same ↦ rw same (in_update, (kept, in_rest))
        ]
