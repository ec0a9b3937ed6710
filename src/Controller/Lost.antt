-- ===== src/Controller/Lost.antt =====
-- Proofs on the loop of reconcileGateway over the nodes (pkg/egressgateway/egress_gateway.go): a node
-- whose tunnel is not found.
use egressgateway.Prelude.{
  Error, ℕ, suc, ◌≡◌, refl, ap, ◌∙◌, true, false, List, [], ◌∷◌, ◌++◌, inl, inr, some, arith,
  get_elem?, length, modify, err, Bool-cases, eq_iff,
}
use egressgateway.Api.{EgressIpStatus}
use egressgateway.Api.Phase
use egressgateway.Ip.Text.{Host}
use egressgateway.Ip.Range.{has_mark, delete_mark}
use egressgateway.Ip.Diff.{has_mark-delete_mark}
use egressgateway.Controller.Flow.{next}
use egressgateway.Controller.Client.{Client, Labels}
use egressgateway.Controller.Reassign.{remove_at}
use egressgateway.Controller.GatewaySync.{Sync, sync_round, sync_loop}
use egressgateway.Controller.SyncEnds.{round-removed, loop-next}

append-nil {ℓ} : {A : Type ℓ} (xs : List A) → xs ++ [] ≡ xs
append-nil [] = refl
append-nil (x ∷ xs) = ap (λ ys. x ∷ ys) (append-nil xs)

get_elem?-length {ℓ} :
    {A : Type ℓ} (before after : List A) (x : A)
    → get_elem? (before ++ x ∷ after) (length before) ≡ some x
get_elem?-length [] after x = refl
get_elem?-length (y ∷ before) after x = get_elem?-length before after x

modify-length {ℓ} :
    {A : Type ℓ} (before after : List A) (x : A) (f : A → A)
    → modify (before ++ x ∷ after) (length before) f ≡ before ++ f x ∷ after
modify-length [] after x f = refl
modify-length (y ∷ before) after x f = ap (λ ys. y ∷ ys) (modify-length before after x f)

remove_at-length :
    (before after : List EgressIpStatus) (x : EgressIpStatus)
    → remove_at (before ++ x ∷ after) (length before) ≡ before ++ after
unfolding remove_at
remove_at-length [] after x = refl
remove_at-length (y ∷ before) after x = ap (λ ys. y ∷ ys) (remove_at-length before after x)

module _ {S : Type 0} (client cli : Client S) (labels : Labels) (h : Host) where
  -- a node that is no more in the set is removed, and the loop goes on at its index
  loop-removed :
      (fuel : ℕ) (before after : List EgressIpStatus) (node : EgressIpStatus) (y : Sync) (s : S)
      → has_mark node.name y.keys ≡ false
      → sync_loop client cli labels h
          (suc fuel)
          (length before)
          (record y { nodes = before ++ node ∷ after })
          s
        ≡ sync_loop client cli labels h fuel
            (length before)
            (record {
              nodes = before ++ after;
              keys = y.keys;
              need_move = y.need_move ++ node.eips;
              need_update = true;
            })
            s
  loop-removed fuel before after node y s m =
      let here : Sync = record y { nodes = before ++ node ∷ after } in
      loop-next client cli labels h fuel (length before) here s node _ s
        (get_elem?-length before after node)
        (round-removed client cli labels h (length before) node here s m)
      ∙ ap
          (λ nodes.
            sync_loop client cli labels h fuel (length before)
              (record {
                nodes = nodes;
                keys = y.keys;
                need_move = y.need_move ++ node.eips;
                need_update = true;
              })
              s)
          (remove_at-length before after node)

  round-pending :
      (i : ℕ) (node : EgressIpStatus) (y : Sync) (s s' : S)
      → has_mark node.name y.keys ≡ true
      → client.get_tunnel node.name s ≡ (err Error.not_found, s')
      → Phase.is_not_equal Phase.pending node.status ≡ true
      → sync_round client cli labels h i node y s ≡ (
        next (
          i,
          record {
            nodes = modify y.nodes i (λ n. record n { status = Phase.pending; eips = [] });
            keys = delete_mark node.name y.keys;
            need_move = y.need_move ++ node.eips;
            need_update = true;
          },
        ),
        s',
      )
  unfolding sync_round
  round-pending i node y s s' m e d = ground (arith, e)

  round-kept :
      (i : ℕ) (node : EgressIpStatus) (y : Sync) (s s' : S)
      → has_mark node.name y.keys ≡ true
      → client.get_tunnel node.name s ≡ (err Error.not_found, s')
      → Phase.is_not_equal Phase.pending node.status ≡ false
      → sync_round client cli labels h i node y s
        ≡ (next (i, record y { keys = delete_mark node.name y.keys }), s')
  unfolding sync_round
  round-kept i node y s s' m e d = ground (arith, e)

  -- The loop of reconcileGateway over the nodes, at a node of the set whose tunnel is not found,
  -- with the nodes before and after it: within two rounds exactly this node is removed from the list, its
  -- name from the set, its EIPs are added to those to move, the gateway is to be updated, and
  -- the loop goes on at the same index.
  pub sync_loop-lost :
      (fuel : ℕ) (before after : List EgressIpStatus) (node : EgressIpStatus) (y : Sync) (s s' : S)
      → y.nodes ≡ before ++ node ∷ after
      → has_mark node.name y.keys ≡ true
      → client.get_tunnel node.name s ≡ (err Error.not_found, s')
      → sync_loop client cli labels h (suc (suc fuel)) (length before) y s
        ≡ sync_loop client cli labels h fuel
            (length before)
            (record {
              nodes = before ++ after;
              keys = delete_mark node.name y.keys;
              need_move = y.need_move ++ node.eips;
              need_update = true;
            })
            s'
  sync_loop-lost fuel before after node y s s' at m e =
      let i = length before in
      let keys = delete_mark node.name y.keys in
      let gone : has_mark node.name keys ≡ false =
        ground
          (arith, has_mark-delete_mark node.name node.name y.keys, eq_iff node.name node.name) in
      let here = ap (λ nodes. get_elem? nodes i) at ∙ get_elem?-length before after node in
      let reset = λ (n : EgressIpStatus). record n { status = Phase.pending; eips = [] } in
      elim (Bool-cases (Phase.is_not_equal Phase.pending node.status)) [
        | inl differs ↦
            let moved : Sync = record {
              nodes = y.nodes;
              keys = keys;
              need_move = y.need_move ++ node.eips;
              need_update = true;
            } in
            loop-next client cli labels h (suc fuel) i y s node _ s' here
              (round-pending i node y s s' m e differs)
            ∙ ap
                (λ nodes.
                  sync_loop client cli labels h (suc fuel) i (record moved { nodes = nodes }) s')
                (ap (λ nodes. modify nodes i reset) at ∙ modify-length before after node reset)
            ∙ loop-removed fuel before after (reset node) moved s' gone
            ∙ ap
                (λ eips.
                  sync_loop client cli labels h fuel i
                    (record moved { nodes = before ++ after; need_move = eips }) s')
                (append-nil (y.need_move ++ node.eips))
        | inr same ↦
            loop-next client cli labels h (suc fuel) i y s node _ s' here
              (round-kept i node y s s' m e same)
            ∙ ap
                (λ nodes.
                  sync_loop client cli labels h (suc fuel) i
                    (record y { nodes = nodes; keys = keys }) s')
                at
            ∙ loop-removed fuel before after node (record y { keys = keys }) s' gone
      ]
