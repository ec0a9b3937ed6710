-- ===== src/Gateway/Least.antt =====
-- Proofs on the loops of assignIP over the nodes (pkg/egressgateway/egress_gateway.go).
use egressgateway.Prelude.{
  ℕ, zero, suc, ◌+◌, ◌≤◌, ◌<◌, ◌≡◌, refl, ap, ◌∙◌, true, false, List, [], ◌∷◌, ◌⊎◌, inl, inr,
  Option, none, some, arith, length, get_elem?, All, Bool-cases, ltb-false→le, ltb,
}
use egressgateway.Api.{EgressIpStatus}
use egressgateway.Gateway.Nodes.{is_ready, keep_best, select_node}
use egressgateway.Gateway.Choose.{best_node, is_better}

-- every ready node has at least n EIPs
abbrev pub AtLeast : ℕ → List EgressIpStatus → Type 0
AtLeast n nodes = All (λ m. (is_ready m ≡ true) → n ≤ length m.eips) nodes

-- what a loop has found: a ready node at the index, with that many EIPs
abbrev pub ReadyAt : List EgressIpStatus → ℕ → ℕ → Type 0
ReadyAt nodes i n =
    (node : EgressIpStatus) × (get_elem? nodes i ≡ some node)
    × (is_ready node ≡ true)
    × (length node.eips ≡ n)

keep_best-some :
    (i : ℕ) (node : EgressIpStatus) (b m : ℕ)
    → (c : ℕ) × (l : ℕ) × (keep_best i node (some (b, m)) ≡ some (c, l))
      × (l ≤ m)
      × ((is_ready node ≡ true) → l ≤ length node.eips)
      × (((c ≡ b) × (l ≡ m)) ⊎ ((c ≡ i) × (l ≡ length node.eips) × (is_ready node ≡ true)))
unfolding keep_best
keep_best-some i node b m = elim (Bool-cases (is_ready node)) [
  | inr f ↦ (b, m, ground arith, ground arith, (λ t. ground arith), inl (refl, refl))
  | inl r ↦ elim (Bool-cases (ltb (length node.eips) m)) [
    | inl t ↦
        (i, length node.eips, ground arith, ground arith, (λ _. omega arith), inr (refl, refl, r))
    | inr f ↦ (b, m, ground arith, ground arith, (λ _. ltb-false→le _ _ f), inl (refl, refl))
  ]
]

keep_best-idle :
    (i : ℕ) (node : EgressIpStatus) → is_ready node ≡ false → keep_best i node none ≡ none
unfolding keep_best
keep_best-idle i node f = ground arith

keep_best-first :
    (i : ℕ) (node : EgressIpStatus)
    → is_ready node ≡ true
    → keep_best i node none ≡ some (i, length node.eips)
unfolding keep_best
keep_best-first i node r = ground arith

-- from a node already found
select_node-some :
    (i : ℕ) (b m : ℕ) (nodes : List EgressIpStatus)
    → (c : ℕ) × (l : ℕ) × (select_node i (some (b, m)) nodes ≡ some (c, l))
      × (l ≤ m)
      × AtLeast l nodes
      × (((c ≡ b) × (l ≡ m)) ⊎ ((k : ℕ) × (c ≡ i + k) × ReadyAt nodes k l))
unfolding select_node
select_node-some i b m [] = (b, m, refl, omega arith, tt, inl (refl, refl))
select_node-some i b m (node ∷ rest) =
    let (c, l, kept, less, covers, from) = keep_best-some i node b m in
    let (d, n, found, least, all, at) = select_node-some (i + 1) c l rest in
    (
      d,
      n,
      rw (kept, found),
      omega arith,
      ((λ r. omega (arith, covers r)), all),
      elim at [
        | inr (k, e, r) ↦ inr (suc k, omega arith, r)
        | inl (e, f) ↦ elim from [
          | inl (e', f') ↦ inl (omega arith, omega arith)
          | inr (e', f', r) ↦ inr (zero, omega arith, (node, refl, r, omega arith))
        ]
      ],
    )

select_node-none :
    (i : ℕ) (nodes : List EgressIpStatus)
    → ((select_node i none nodes ≡ none) × All (λ m. is_ready m ≡ false) nodes)
      ⊎ ((k : ℕ) × (l : ℕ) × (select_node i none nodes ≡ some (i + k, l))
          × AtLeast l nodes
          × ReadyAt nodes k l)
unfolding select_node
select_node-none i [] = inl (refl, tt)
select_node-none i (node ∷ rest) = elim (Bool-cases (is_ready node)) [
  | inr f ↦ elim (select_node-none (i + 1) rest) [
    | inl (e, no_ready) ↦ inl (rw (keep_best-idle i node f, e), (f, no_ready))
    | inr (k, l, e, least, at) ↦ inr (
      suc k,
      l,
      rw (keep_best-idle i node f, e) (ap (λ (j : ℕ). some (j, l)) (omega arith)),
      ((λ r. absurd (ground arith)), least),
      at,
    )
  ]
  | inl r ↦
      let (c, l, found, least, all, at) = select_node-some (i + 1) i (length node.eips) rest in
      elim at [
        | inl (e, f) ↦ inr (
          zero,
          l,
          rw (keep_best-first i node r, found) (ap (λ (j : ℕ). some (j, l)) (omega arith)),
          ((λ _. least), all),
          (node, refl, r, omega arith),
        )
        | inr (k, e, there) ↦ inr (
          suc k,
          l,
          rw (keep_best-first i node r, found) (ap (λ (j : ℕ). some (j, l)) (omega arith)),
          ((λ _. least), all),
          there,
        )
      ]
]

-- The first loop of assignIP finds no node exactly when no node is ready; or else it finds a
-- ready node, with the number of its EIPs, and no ready node has fewer.
pub select_node_least :
    (nodes : List EgressIpStatus)
    → ((select_node 0 none nodes ≡ none) × All (λ m. is_ready m ≡ false) nodes)
      ⊎ ((i : ℕ) × (n : ℕ) × (select_node 0 none nodes ≡ some (i, n))
          × AtLeast n nodes
          × ReadyAt nodes i n)
select_node_least nodes = elim (select_node-none 0 nodes) [
  | inl idle ↦ inl idle
  | inr (k, l, e, least, at) ↦ inr (k, l, e ∙ ap (λ (j : ℕ). some (j, l)) (omega arith), least, at)
]

not_better :
    (node : EgressIpStatus) (m : ℕ)
    → is_better node m ≡ false
    → is_ready node ≡ true
    → m ≤ length node.eips
not_better node m f r = ground arith

better :
    (node : EgressIpStatus) (m : ℕ)
    → is_better node m ≡ true
    → (is_ready node ≡ true) × (length node.eips < m)
better node m t = ground arith

best_node-cases :
    (i : ℕ) (best : Option ℕ) (m : ℕ) (nodes : List EgressIpStatus)
    → ((best_node i best m nodes ≡ best) × AtLeast m nodes)
      ⊎ ((k : ℕ) × (l : ℕ) × (best_node i best m nodes ≡ some (i + k))
          × (l < m)
          × AtLeast l nodes
          × ReadyAt nodes k l)
unfolding best_node
best_node-cases i best m [] = inl (refl, tt)
best_node-cases i best m (node ∷ rest) = elim (Bool-cases (is_better node m)) [
  | inr f ↦ elim (best_node-cases (i + 1) best m rest) [
    | inl (e, all) ↦ inl (rw f e, ((λ r. not_better node m f r), all))
    | inr (k, l, e, less, all, at) ↦ inr (
      suc k,
      l,
      rw f (e ∙ ap (λ (j : ℕ). some j) (omega arith)),
      less,
      ((λ r. omega (arith, not_better node m f r)), all),
      at,
    )
  ]
  | inl t ↦ elim (best_node-cases (i + 1) (some i) (length node.eips) rest) [
    | inl (e, all) ↦ inr (
      zero,
      length node.eips,
      rw t (e ∙ ap (λ (j : ℕ). some j) (omega arith)),
      (better node m t).1,
      ((λ r. omega arith), all),
      (node, refl, (better node m t).0, refl),
    )
    | inr (k, l, e, less, all, at) ↦ inr (
      suc k,
      l,
      rw t (e ∙ ap (λ (j : ℕ). some j) (omega arith)),
      omega (arith, (better node m t).1),
      ((λ r. omega arith), all),
      at,
    )
  ]
]

-- The loop of assignIP for an EIP that the policy names finds no node exactly when each ready
-- node has 127 EIPs or more; or else it finds a ready node with fewer, and none has fewer still.
best_node_least :
    (nodes : List EgressIpStatus)
    → ((best_node 0 none 127 nodes ≡ none) × AtLeast 127 nodes)
      ⊎ ((i : ℕ) × (n : ℕ) × (best_node 0 none 127 nodes ≡ some i)
          × (n < 127)
          × AtLeast n nodes
          × ReadyAt nodes i n)
best_node_least nodes = elim (best_node-cases 0 none 127 nodes) [
  | inl idle ↦ inl idle
  | inr (k, l, e, less, least, at) ↦
      inr (k, l, e ∙ ap (λ (j : ℕ). some j) (omega arith), less, least, at)
]
