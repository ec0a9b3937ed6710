-- ===== src/Gateway/Steps.antt =====
-- Lemmas on how getAssignedIP reads a status in which one EIP list, or one node, is changed.
use egressgateway.Prelude.{
  ℕ, zero, suc, String, ◌≡◌, refl, true, false, List, [], ◌∷◌, ◌++◌, none, some, arith, get_elem?,
  modify, if◌then◌else◌, eq_refl,
}
use egressgateway.Api.{Policy, Eips, EgressIpStatus}
use egressgateway.Gateway.Lookup.{
  AssignedIp, is_policy, has_policy, assigned_in_eips, assigned_in_nodes,
}

abbrev pub found_at : String → Eips → AssignedIp
found_at node eip = record { node = node; ipv4 = eip.ipv4; ipv6 = eip.ipv6; use_node_ip = false }

pub is_policy_self : (p : Policy) → is_policy p.namespace p.name p ≡ true
is_policy_self p = ground (arith, eq_refl p.name, eq_refl p.namespace)

module _ (ns name : String) where
  pub has_policy-append :
      (ps qs : List Policy)
      → has_policy ns name (ps ++ qs)
        ≡ (if has_policy ns name ps then true else has_policy ns name qs)
  unfolding has_policy
  has_policy-append [] qs = refl
  has_policy-append (p ∷ ps) qs = ground (arith, has_policy-append ps qs)

  pub assigned_in_eips-append :
      (node : String) (xs ys : List Eips)
      → assigned_in_eips ns name node xs ≡ none
      → assigned_in_eips ns name node (xs ++ ys) ≡ assigned_in_eips ns name node ys
  unfolding assigned_in_eips
  assigned_in_eips-append node [] ys h = refl
  assigned_in_eips-append node (x ∷ xs) ys h = ground (arith, assigned_in_eips-append node xs ys)

  -- an EIP list is extended by EIPs that do not hold the policy
  pub assigned_in_eips-append_other :
      (node : String) (xs ys : List Eips)
      → assigned_in_eips ns name node ys ≡ none
      → assigned_in_eips ns name node (xs ++ ys) ≡ assigned_in_eips ns name node xs
  unfolding assigned_in_eips
  assigned_in_eips-append_other node [] ys h = h
  assigned_in_eips-append_other node (x ∷ xs) ys h =
      ground (arith, assigned_in_eips-append_other node xs ys h)

  -- one node changes its EIPs, and the policy is not affected
  pub assigned_in_nodes-modify_other :
      (nodes : List EgressIpStatus) (i : ℕ) (f : EgressIpStatus → EgressIpStatus)
      → ((n : EgressIpStatus)
          → assigned_in_eips ns name (f n).name (f n).eips ≡ assigned_in_eips ns name n.name n.eips)
      → assigned_in_nodes ns name (modify nodes i f) ≡ assigned_in_nodes ns name nodes
  unfolding assigned_in_nodes
  assigned_in_nodes-modify_other [] i f h = refl
  assigned_in_nodes-modify_other (n ∷ nodes) zero f h = ground (arith, h n)
  assigned_in_nodes-modify_other (n ∷ nodes) (suc i) f h =
      ground (arith, assigned_in_nodes-modify_other nodes i f h)

  -- one node gets the policy, and no other node has it
  pub assigned_in_nodes-modify_self :
      (nodes : List EgressIpStatus) (i : ℕ) (f : EgressIpStatus → EgressIpStatus)
      (node : EgressIpStatus) (a : AssignedIp)
      → assigned_in_nodes ns name nodes ≡ none
      → get_elem? nodes i ≡ some node
      → assigned_in_eips ns name (f node).name (f node).eips ≡ some a
      → assigned_in_nodes ns name (modify nodes i f) ≡ some a
  unfolding assigned_in_nodes
  assigned_in_nodes-modify_self [] i f node a h e found = cc
  assigned_in_nodes-modify_self (n ∷ nodes) zero f node a h e found = ground arith
  assigned_in_nodes-modify_self (n ∷ nodes) (suc i) f node a h e found =
      ground (arith, assigned_in_nodes-modify_self nodes i f node a)

  -- what a status without the policy says of one of its nodes
  pub absent_in_node :
      (nodes : List EgressIpStatus) (i : ℕ) (node : EgressIpStatus)
      → assigned_in_nodes ns name nodes ≡ none
      → get_elem? nodes i ≡ some node
      → assigned_in_eips ns name node.name node.eips ≡ none
  unfolding assigned_in_nodes
  absent_in_node [] i node h e = cc
  absent_in_node (n ∷ nodes) zero node h e = ground arith
  absent_in_node (n ∷ nodes) (suc i) node h e = ground (arith, absent_in_node nodes i node)
