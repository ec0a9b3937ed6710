-- ===== src/Controller/SyncEnds.antt =====
-- Proofs on the loop of reconcileGateway over the nodes (pkg/egressgateway/egress_gateway.go): its
-- fuel.
use egressgateway.Prelude.{
  Error, ℕ, zero, suc, ◌+◌, ◌*◌, ◌-◌, ◌<◌, ◌≡◌, ◌≢◌, refl, ap, ◌∙◌, String, true, false, List, [],
  ◌∷◌, ◌++◌, ◌⊎◌, inl, inr, none, some, arith, get_elem?, length, modify, ok, err, Bool-cases,
  Option-cases, eq_iff,
}
use egressgateway.Api.{EgressIpStatus, EgressTunnel}
use egressgateway.Api.Phase
use egressgateway.Ip.Text.{Host}
use egressgateway.Ip.Range.{has_mark, delete_mark}
use egressgateway.Ip.Diff.{has_mark-delete_mark}
use egressgateway.Controller.Flow.{is_not_found, next, return, out_of_fuel, Outcome}
use egressgateway.Controller.Client.{Client, Labels}
use egressgateway.Controller.Reassign.{remove_at}
use egressgateway.Controller.GatewaySync.{Sync, sync_round, sync_loop}

length-modify {ℓ} :
    {A : Type ℓ} (xs : List A) (i : ℕ) (f : A → A) → length (modify xs i f) ≡ length xs
length-modify [] i f = refl
length-modify (x ∷ xs) zero f = refl
length-modify (x ∷ xs) (suc i) f = ap suc (length-modify xs i f)

get_elem?-modify {ℓ} :
    {A : Type ℓ} (xs : List A) (i : ℕ) (f : A → A) (x : A)
    → get_elem? xs i ≡ some x
    → get_elem? (modify xs i f) i ≡ some (f x)
get_elem?-modify [] i f x h = cc
get_elem?-modify (y ∷ xs) zero f x h = ground arith
get_elem?-modify (y ∷ xs) (suc i) f x h = get_elem?-modify xs i f x h

length-remove_at :
    (xs : List EgressIpStatus) (i : ℕ) (x : EgressIpStatus)
    → get_elem? xs i ≡ some x
    → (i < length xs) × (length (remove_at xs i) + 1 ≡ length xs)
unfolding remove_at
length-remove_at [] i x h = cc
length-remove_at (y ∷ xs) zero x h = (omega arith, omega arith)
length-remove_at (y ∷ xs) (suc i) x h =
    let (less, len) = length-remove_at xs i x h in (omega arith, omega arith)

is_not_found-eq : (x : Error) → is_not_found x ≡ true → x ≡ Error.not_found
is_not_found-eq Error.not_found t = refl
is_not_found-eq Error.conflict t = cc
is_not_found-eq Error.api_error t = cc
is_not_found-eq Error.invalid_ip_version t = cc
is_not_found-eq Error.invalid_ip t = cc
is_not_found-eq Error.invalid_ip_range_format t = cc
is_not_found-eq Error.invalid_cidr t = cc
is_not_found-eq Error.invalid_request t = cc
is_not_found-eq Error.not_enough_ip t = cc
is_not_found-eq Error.no_available_node t = cc
is_not_found-eq Error.not_in_pool t = cc
is_not_found-eq Error.bad_mark t = cc
is_not_found-eq Error.mark_not_in_range t = cc
is_not_found-eq Error.already_allocated t = cc
is_not_found-eq Error.range_full t = cc
is_not_found-eq (Error.message m) t = cc

module _ {S : Type 0} (client cli : Client S) (labels : Labels) (h : Host) where
  -- a node whose name is not in the set, or no more, is removed
  pub round-removed :
      (i : ℕ) (node : EgressIpStatus) (y : Sync) (s : S)
      → has_mark node.name y.keys ≡ false
      → sync_round client cli labels h i node y s ≡ (
        next (
          i,
          record {
            nodes = remove_at y.nodes i;
            keys = y.keys;
            need_move = y.need_move ++ node.eips;
            need_update = true;
          },
        ),
        s,
      )
  unfolding sync_round
  round-removed i node y s m = ground arith

  -- a node whose tunnel is there is passed
  round-found :
      (i : ℕ) (node : EgressIpStatus) (y : Sync) (s s' : S) (tunnel : EgressTunnel)
      → has_mark node.name y.keys ≡ true
      → client.get_tunnel node.name s ≡ (ok tunnel, s')
      → (y' : Sync) × (sync_round client cli labels h i node y s ≡ (next (suc i, y'), s'))
        × (length y'.nodes ≡ length y.nodes)
  unfolding sync_round
  round-found i node y s s' tunnel m e =
      elim (Bool-cases (Phase.is_not_equal tunnel.status.phase node.status)) [
        | inl differs ↦ (
          record y {
            nodes = modify y.nodes i (λ n. record n { status = Phase.pending });
            keys = delete_mark node.name y.keys;
            need_update = true;
          },
          ground (arith, e),
          length-modify y.nodes i (λ n. record n { status = Phase.pending }),
        )
        | inr same ↦ (record y { keys = delete_mark node.name y.keys }, ground (arith, e), refl)
      ]

  -- a node whose tunnel is not there stays where it is, and its name is no more in the set
  round-lost :
      (i : ℕ) (node : EgressIpStatus) (y : Sync) (s s' : S)
      → get_elem? y.nodes i ≡ some node
      → has_mark node.name y.keys ≡ true
      → client.get_tunnel node.name s ≡ (err Error.not_found, s')
      → (y' : Sync) × (node' : EgressIpStatus) × (sync_round client cli labels h i node y s
          ≡ (next (i, y'), s'))
        × (length y'.nodes ≡ length y.nodes)
        × (get_elem? y'.nodes i ≡ some node')
        × (has_mark node'.name y'.keys ≡ false)
  unfolding sync_round
  round-lost i node y s s' at m e =
      let gone : has_mark node.name (delete_mark node.name y.keys) ≡ false =
        ground
          (arith, has_mark-delete_mark node.name node.name y.keys, eq_iff node.name node.name) in
      let reset = λ (n : EgressIpStatus). record n { status = Phase.pending; eips = [] } in
      elim (Bool-cases (Phase.is_not_equal Phase.pending node.status)) [
        | inl differs ↦ (
          record {
            nodes = modify y.nodes i reset;
            keys = delete_mark node.name y.keys;
            need_move = y.need_move ++ node.eips;
            need_update = true;
          },
          reset node,
          ground (arith, e),
          length-modify y.nodes i reset,
          get_elem?-modify y.nodes i reset node at,
          gone,
        )
        | inr same ↦ (
          record y { keys = delete_mark node.name y.keys },
          node,
          ground (arith, e),
          refl,
          at,
          gone,
        )
      ]

  -- another error ends the loop
  round-failed :
      (i : ℕ) (node : EgressIpStatus) (y : Sync) (s s' : S) (x : Error)
      → has_mark node.name y.keys ≡ true
      → is_not_found x ≡ false
      → client.get_tunnel node.name s ≡ (err x, s')
      → sync_round client cli labels h i node y s
        ≡ (return (record { requeue = false; error = some x }), s')
  unfolding sync_round
  round-failed i node y s s' x m f e = ground (arith, e)

  pub loop-next :
      (fuel i : ℕ) (y : Sync) (s : S) (node : EgressIpStatus) (r : ℕ × Sync) (s' : S)
      → get_elem? y.nodes i ≡ some node
      → sync_round client cli labels h i node y s ≡ (next r, s')
      → sync_loop client cli labels h (suc fuel) i y s
        ≡ sync_loop client cli labels h fuel r.0 r.1 s'
  unfolding sync_loop
  loop-next fuel i y s node r s' at e = ground (arith, e)

  loop-stops :
      (fuel i : ℕ) (y : Sync) (s : S)
      → get_elem? y.nodes i ≡ none
      → sync_loop client cli labels h (suc fuel) i y s ≡ (next y, s)
  unfolding sync_loop
  loop-stops fuel i y s at = ground arith

  loop-returns :
      (fuel i : ℕ) (y : Sync) (s : S) (node : EgressIpStatus) (o : Outcome) (s' : S)
      → get_elem? y.nodes i ≡ some node
      → sync_round client cli labels h i node y s ≡ (return o, s')
      → sync_loop client cli labels h (suc fuel) i y s ≡ (return o, s')
  unfolding sync_loop
  loop-returns fuel i y s node o s' at e = ground (arith, e)

  -- at a node of the set whose tunnel is not found the list gets shorter within two rounds
  two_rounds :
      (fuel i : ℕ) (y : Sync) (s s' : S) (node : EgressIpStatus)
      → get_elem? y.nodes i ≡ some node
      → has_mark node.name y.keys ≡ true
      → client.get_tunnel node.name s ≡ (err Error.not_found, s')
      → (y' : Sync) × (sync_loop client cli labels h (suc (suc fuel)) i y s
          ≡ sync_loop client cli labels h fuel i y' s')
        × (length y'.nodes + 1 ≡ length y.nodes)
  two_rounds fuel i y s s' node at m e =
      let (y1, node1, round1, len1, at1, gone) = round-lost i node y s s' at m e in
      let round2 = round-removed i node1 y1 s' gone in
      let y2 : Sync = record {
        nodes = remove_at y1.nodes i;
        keys = y1.keys;
        need_move = y1.need_move ++ node1.eips;
        need_update = true;
      } in
      (
        y2,
        loop-next (suc fuel) i y s node (i, y1) s' at round1
            ∙ loop-next fuel i y1 s' node1 (i, y2) s' at1 round2,
        (length-remove_at y1.nodes i node1 at1).1 ∙ len1,
      )

  module _
      (tunnels : (name : String) (s : S)
        → ((s' : S) × (tunnel : EgressTunnel) × (client.get_tunnel name s ≡ (ok tunnel, s')))
          ⊎ ((s' : S) × (x : Error) × (client.get_tunnel name s ≡ (err x, s')))) where
    -- whatever the state, the loop has fuel enough
    sync_loop-ends :
        (fuel i : ℕ) (y : Sync) (s : S)
        → 2 * (length y.nodes - i) < fuel
        → (sync_loop client cli labels h fuel i y s).0 ≢ out_of_fuel
    sync_loop-ends zero i y s less = absurd (omega arith)
    sync_loop-ends (suc zero) i y s less = elim (Option-cases (get_elem? y.nodes i)) [
      | inl out ↦ rw (loop-stops zero i y s out) (λ e. cc)
      | inr (node, at) ↦
          let (inside, len) = length-remove_at y.nodes i node at in absurd (omega arith)
    ]
    sync_loop-ends (suc (suc fuel)) i y s less = elim (Option-cases (get_elem? y.nodes i)) [
      | inl out ↦ rw (loop-stops (suc fuel) i y s out) (λ e. cc)
      | inr (node, at) ↦
          let (inside, len) = length-remove_at y.nodes i node at in
          elim (Bool-cases (has_mark node.name y.keys)) [
            | inr m ↦
                rw (loop-next (suc fuel) i y s node _ s at (round-removed i node y s m))
                  (sync_loop-ends (suc fuel) i _ s (omega arith))
            | inl m ↦ elim (tunnels node.name s) [
              | inl (s', tunnel, e) ↦
                  let (y', round, len') = round-found i node y s s' tunnel m e in
                  rw (loop-next (suc fuel) i y s node (suc i, y') s' at round)
                    (sync_loop-ends (suc fuel) (suc i) y' s' (omega arith))
              | inr (s', x, e) ↦ elim (Bool-cases (is_not_found x)) [
                | inr f ↦
                    rw
                      (loop-returns (suc fuel) i y s node _ s' at
                        (round-failed i node y s s' x m f e))
                      (λ e'. cc)
                | inl t ↦
                    let missing = e ∙ ap (λ (z : Error). (err z, s')) (is_not_found-eq x t) in
                    let (y', same, len') = two_rounds fuel i y s s' node at m missing in
                    rw same (sync_loop-ends fuel i y' s' (omega arith))
              ]
            ]
          ]
    ]

    -- With the fuel that reconcileGateway gives it, 2 * n + 1 for n nodes, the loop over the nodes
    -- never runs out of it, when each call for a tunnel returns a tunnel or an error.
    pub sync_loop_enough :
        (y : Sync) (s : S)
        → (sync_loop client cli labels h (2 * length y.nodes + 1) 0 y s).0 ≢ out_of_fuel
    sync_loop_enough y s = sync_loop-ends (2 * length y.nodes + 1) 0 y s (omega arith)
