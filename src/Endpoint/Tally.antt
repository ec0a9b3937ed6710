-- ===== src/Endpoint/Tally.antt =====
-- Proofs on how many endpoints of a pod the loops of Reconcile of pkg/controller/endpoint keep,
-- make and share out.
use egressgateway.Endpoint.Pods.{
  Key, key_eq, endpoint_key, pod_key, new_endpoint, find_pod, need_update_endpoint,
}
use egressgateway.Prelude.{
  none, some, ℕ, List, ◌≡◌, true, ◌∷◌, ◌++◌, ◌+◌, if◌then◌else◌, arith, ◌-◌, [], length, sym, ltb,
  ◌∙◌, Bool-cases, ap, inr, inl, refl, eq_iff, Option, Bool, false, Option-cases,
}
use egressgateway.Ip.Text.{NetText}
use egressgateway.Endpoint.Slices.{fill_update, fill_not_change, take, drop, filter_endpoints}
use egressgateway.Endpoint.Objects.{EgressEndpoint, EgressEndpointSlice, Pod}
use egressgateway.Endpoint.Fill.{take-drop}

-- key_eq of equal keys
pub key_eq-eq : (k l : Key) → key_eq k l ≡ true → k ≡ l
key_eq-eq k l h =
    let p = (eq_iff k.0 l.0).0 (ground (arith, h)) in
    let q = (eq_iff k.1 l.1).0 (ground (arith, h)) in λ i. (p i, q i)

-- the unchanged slices that fill_not_change does not give
unfoldable pub left_alone :
    ℕ → List EgressEndpointSlice → List EgressEndpoint → List EgressEndpointSlice
left_alone max [] create = []
left_alone max (slice ∷ slices) create =
    let count = max - length slice.endpoints in
    let has_room = ltb (length slice.endpoints) max in
    let rest = left_alone max slices (if has_room then drop count create else create) in
    if has_room then if ltb count (length create) then rest else slices else slice ∷ rest

-- whether podMap has an entry
abbrev pub is_there : Option Pod → Bool
is_there none = false
is_there (some pod) = true

module _ (k : Key) where
  -- the endpoints of the key
  unfoldable pub tally : List EgressEndpoint → ℕ
  tally [] = 0
  tally (ep ∷ eps) = (if key_eq (endpoint_key ep) k then 1 else 0) + tally eps

  unfoldable pub tally_slices : List EgressEndpointSlice → ℕ
  unfolding tally
  tally_slices [] = 0
  tally_slices (slice ∷ slices) = tally slice.endpoints + tally_slices slices

  -- the pods of the key that have an address
  unfoldable pub addressed : NetText → List Pod → ℕ
  addressed t [] = 0
  addressed t (pod ∷ pods) =
      (if key_eq (pod_key pod) k then elim (new_endpoint t pod) [ none ↦ 0 | some ep ↦ 1 ] else 0)
      + addressed t pods

  pub tally-append : (xs ys : List EgressEndpoint) → tally (xs ++ ys) ≡ tally xs + tally ys
  unfolding tally
  tally-append [] ys = omega arith
  tally-append (x ∷ xs) ys = omega (arith, tally-append xs ys)

  pub tally_slices-append :
      (xs ys : List EgressEndpointSlice)
      → tally_slices (xs ++ ys) ≡ tally_slices xs + tally_slices ys
  unfolding tally_slices
  tally_slices-append [] ys = omega arith
  tally_slices-append (x ∷ xs) ys = omega (arith, tally_slices-append xs ys)

  tally-split :
      (n : ℕ) (eps : List EgressEndpoint) → tally (take n eps) + tally (drop n eps) ≡ tally eps
  tally-split n eps = sym (tally-append (take n eps) (drop n eps)) ∙ ap tally (take-drop n eps)

  pub fill_update-tally :
      (max : ℕ) (slices : List EgressEndpointSlice) (create : List EgressEndpoint)
      → let filled = fill_update max slices create in
        tally_slices filled.0 + tally filled.1 ≡ tally_slices slices + tally create
  unfolding fill_update tally_slices
  fill_update-tally max [] create = refl
  fill_update-tally max (slice ∷ slices) create =
      let count = max - length slice.endpoints in
      let split = tally-split count create in
      let part = tally-append slice.endpoints (take count create) in
      let whole = tally-append slice.endpoints create in
      elim (Bool-cases (ltb (length slice.endpoints) max)) [
        | inr full ↦ rw full (omega (arith, fill_update-tally max slices create))
        | inl room ↦ elim (Bool-cases (ltb count (length create))) [
          | inl more ↦
              rw (room, more)
                (omega (arith, split, part, fill_update-tally max slices (drop count create)))
          | inr last ↦ rw (room, last) (omega (arith, whole))
        ]
      ]

  pub fill_not_change-tally :
      (max : ℕ) (slices : List EgressEndpointSlice) (create : List EgressEndpoint)
      → let filled = fill_not_change max slices create in
        tally_slices filled.0 + tally filled.1 + tally_slices (left_alone max slices create)
        ≡ tally_slices slices + tally create
  unfolding fill_not_change left_alone tally_slices
  fill_not_change-tally max [] create = omega arith
  fill_not_change-tally max (slice ∷ slices) create =
      let count = max - length slice.endpoints in
      let split = tally-split count create in
      let part = tally-append slice.endpoints (take count create) in
      let whole = tally-append slice.endpoints create in
      elim (Bool-cases (ltb (length slice.endpoints) max)) [
        | inr full ↦ rw full (omega (arith, fill_not_change-tally max slices create))
        | inl room ↦ elim (Bool-cases (ltb count (length create))) [
          | inl more ↦
              rw (room, more)
                (omega (arith, split, part, fill_not_change-tally max slices (drop count create)))
          | inr last ↦ rw (room, last) (omega (arith, whole))
        ]
      ]

  module _ (t : NetText) (pods : List Pod) where
    find_pod-key : (l : Key) → key_eq l k ≡ true → find_pod l pods ≡ find_pod k pods
    find_pod-key l h = ap (λ x. find_pod x pods) (key_eq-eq l k h)

    pub filter_endpoints-tally :
        (eps : List EgressEndpoint)
        → tally (filter_endpoints t pods eps).1
          ≡ (if is_there (find_pod k pods) then tally eps else 0)
    unfolding filter_endpoints tally need_update_endpoint
    filter_endpoints-tally [] = ground arith
    filter_endpoints-tally (ep ∷ eps) =
        let same = find_pod-key (endpoint_key ep) in
        elim (Option-cases (find_pod (endpoint_key ep) pods)) [
          | inl gone ↦ elim (Bool-cases (key_eq (endpoint_key ep) k)) [
            | inl mine ↦ ground (arith, gone, mine, filter_endpoints-tally eps, same mine)
            | inr other ↦ ground (arith, gone, other, filter_endpoints-tally eps)
          ]
          | inr (pod, there) ↦ elim (Bool-cases (key_eq (endpoint_key ep) k)) [
            | inl mine ↦ ground (arith, there, mine, filter_endpoints-tally eps, same mine)
            | inr other ↦ ground (arith, there, other, filter_endpoints-tally eps)
          ]
        ]
