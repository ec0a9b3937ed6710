-- ===== src/Agent/Kept.antt =====
-- Proofs on initApplyPolicy of pkg/agent/police.go: the sets that its rules name, and those that it
-- deletes.
use Prim.Native.String.{◌++◌}
use mathlib.Core.List as L
use egressgateway.Prelude.{
  ℕ, String, Bool, true, false, ◌==◌, eq_refl, ==_ne, nat_beq, if◌then◌else◌, List, [], ◌∷◌, Option,
  some, Result, ok, err, panic, no_fuel, ◌≡◌, ◌⊎◌, refl, sym, ap, ◌∙◌, arith, inl, inr, Bool-cases,
  All,
}
use egressgateway.Controller.Flow.{after}
use egressgateway.Agent.Apply.{clean_sets, is_kept, is_loaded}
use egressgateway.Agent.Held.{IsIpset, after-ok}
use egressgateway.Agent.Names.{policy_name, build_ipset_names_by_policy, format_ipset_name}
use egressgateway.Agent.Rules.{
  egress_cluster_cidr_ipv4, egress_cluster_cidr_ipv6, Criterion, source_ip_set, dest_ip_set,
  not_dest_ip_set, ct_direction_original, mark_matches_with_mask, in_interface, src_mac_source,
  PolicyIp, version_part, policy_criteria, build_eip_rule, build_policy_rule, ignore_name,
}
use egressgateway.Agent.Synced.{has_name}
use egressgateway.Agent.World.{Env, World, IpSet, load_set, or_logged}
use egressgateway.ClusterInfo.Cidrs.{has_prefix}
use egressgateway.ClusterInfo.Cidrs.{has_prefix}

-- the sets that a rule's criteria name
abbrev criterion_sets : Criterion → List String
criterion_sets (source_ip_set n) = n ∷ []
criterion_sets (dest_ip_set n) = n ∷ []
criterion_sets (not_dest_ip_set n) = n ∷ []
criterion_sets (ct_direction_original d) = []
criterion_sets (mark_matches_with_mask m k) = []
criterion_sets (in_interface i) = []
criterion_sets (src_mac_source m) = []

abbrev pub rule_sets : List Criterion → List String
rule_sets [] = []
rule_sets (c ∷ cs) = L.◌++◌ (criterion_sets c) (rule_sets cs)

-- one of the sets of a policy, or the set of the cluster's addresses
abbrev pub Known : (String → String) → String → String → Bool → Bool → ℕ → String → Type 0
Known sha1 ns name v4 v6 version n =
    (has_name n (build_ipset_names_by_policy sha1 ns name v4 v6) ≡ true) ⊎ (n ≡ ignore_name version)

module _ (sha1 : String → String) (ns name : String) (v4 v6 : Bool) where
  -- the sets of a version that is enabled
  abbrev set_named : String → String
  set_named prefix = format_ipset_name sha1 prefix (policy_name ns name)

  named_v4 :
      v4 ≡ true
      → (has_name (set_named "egress-src-v4-") (build_ipset_names_by_policy sha1 ns name v4 v6)
          ≡ true)
        × (has_name (set_named "egress-dst-v4-") (build_ipset_names_by_policy sha1 ns name v4 v6)
            ≡ true)
  unfolding build_ipset_names_by_policy
  named_v4 h = (
    ground (arith, h, eq_refl (set_named "egress-src-v4-")),
    ground (arith, h, eq_refl (set_named "egress-dst-v4-")),
  )

  named_v6 :
      v6 ≡ true
      → (has_name (set_named "egress-src-v6-") (build_ipset_names_by_policy sha1 ns name v4 v6)
          ≡ true)
        × (has_name (set_named "egress-dst-v6-") (build_ipset_names_by_policy sha1 ns name v4 v6)
            ≡ true)
  unfolding build_ipset_names_by_policy
  named_v6 h = (
    ground (arith, h, eq_refl (set_named "egress-src-v6-")),
    ground (arith, h, eq_refl (set_named "egress-dst-v6-")),
  )

  named_version :
      (version : ℕ)
      → (if nat_beq version 6 then v6 else v4) ≡ true
      → (has_name
            (set_named ("egress-src-" ++ version_part version))
            (build_ipset_names_by_policy sha1 ns name v4 v6)
          ≡ true)
        × (has_name
              (set_named ("egress-dst-" ++ version_part version))
              (build_ipset_names_by_policy sha1 ns name v4 v6)
            ≡ true)
  named_version version h = elim (Bool-cases (nat_beq version 6)) [
    | inl six ↦ rw six (named_v6 (ground (arith, six, h)))
    | inr four ↦ rw four (named_v4 (ground (arith, four, h)))
  ]

  criteria-Known :
      (version : ℕ) (ignore : Bool)
      → (if nat_beq version 6 then v6 else v4) ≡ true
      → All
          (Known sha1 ns name v4 v6 version)
          (rule_sets (policy_criteria sha1 (policy_name ns name) version ignore))
  criteria-Known version true h = (inl (named_version version h).0, (inr refl, tt))
  criteria-Known version false h =
      let (src, dst) = named_version version h in (inl src, (inl dst, tt))

-- Every set that a rule for a policy names, be it one that marks packets or one that translates
-- their source, is one of the sets that the policy has or that of the cluster's addresses, in a table
-- of a version that is enabled.
pub rules-Known :
    (sha1 : String → String) (ns name : String) (v4 v6 : Bool) (ip : PolicyIp) (mark version : ℕ)
    (ignore use_node_ip : Bool)
    → (if nat_beq version 6 then v6 else v4) ≡ true
    → All (Known sha1 ns name v4 v6 version) (
        rule_sets (build_eip_rule sha1 (policy_name ns name) ip version ignore use_node_ip).matches)
      × All
          (Known sha1 ns name v4 v6 version)
          (rule_sets (build_policy_rule sha1 (policy_name ns name) mark version ignore).matches)
unfolding build_eip_rule build_policy_rule
rules-Known sha1 ns name v4 v6 ip mark version ignore use_node_ip h =
    let known = criteria-Known sha1 ns name v4 v6 version ignore h in (known, known)

module _ {S : Type 0} (env : Env S) (sets : IsIpset env.ipset) (w : World S) where
  -- a set that is destroyed, or fails to be, leaves the others
  abbrev pub DestroysOne : Type 0
  DestroysOne =
      (name n x : String) (s : S)
      → (n == name) ≡ false
      → sets.holds n x (env.ipset.destroy_set name s).1 ≡ sets.holds n x s

  or_logged-state :
      {A : Type 0} (r : Result A × S) {o : Option A} {s : S} → or_logged r ≡ (ok o, s) → r.1 ≡ s
  or_logged-state (ok a, s) h = ap (λ q. q.1) h
  or_logged-state (err e, s) h = ap (λ q. q.1) h
  or_logged-state (panic, s) h = ap (λ q. q.1) h
  or_logged-state (no_fuel, s) h = ap (λ q. q.1) h

  clean_sets-kept :
      DestroysOne
      → (names : List String) (s s' : S) → clean_sets env w names s ≡ (ok tt, s')
      → (n x : String) → is_kept env w n ≡ true
      → sets.holds n x s' ≡ sets.holds n x s
  unfolding clean_sets
  clean_sets-kept one [] s s' h n x k = ap (λ q. sets.holds n x q.1) (sym h)
  clean_sets-kept one (name ∷ names) s s' h n x k = elim (Bool-cases (is_kept env w name)) [
    | inl kept ↦ clean_sets-kept one names s s' (sym (rw (kept, clean_sets) refl) ∙ h) n x k
    | inr gone ↦
        let run : after (or_logged (env.ipset.destroy_set name s)) (λ _. clean_sets env w names)
            ≡ (ok tt, s') =
          sym (rw (gone, clean_sets) refl) ∙ h in
        let (o, mid, first, later) =
          after-ok (or_logged (env.ipset.destroy_set name s)) (λ _. clean_sets env w names) run in
        clean_sets-kept one names mid s' later n x k
        ∙ ap (sets.holds n x) (sym (or_logged-state (env.ipset.destroy_set name s) first))
        ∙ one name n x s
            (==_ne n name (λ e. absurd (ground (arith, gone, k, ap (is_kept env w) e))))
  ]

  -- a set of the map, one of the cluster's addresses, or one that is not of this program
  abbrev pub Owned : String → Type 0
  Owned n =
      ((set : IpSet) × (load_set n w.ipset_map ≡ some set))
      ⊎ (n ≡ egress_cluster_cidr_ipv4)
      ⊎ (n ≡ egress_cluster_cidr_ipv6)
      ⊎ (has_prefix n "egress-" ≡ false)

  Owned-is_kept : {n : String} → Owned n → is_kept env w n ≡ true
  unfolding has_prefix
  Owned-is_kept (inl (set, e)) = ground (arith, e, ap is_loaded e)
  Owned-is_kept (inr (inl e)) = rw e refl
  Owned-is_kept (inr (inr (inl e))) = rw e refl
  Owned-is_kept {n} (inr (inr (inr e))) = rw e refl

  -- The last loop of initApplyPolicy leaves what the sets of the map hold, those of the cluster's
  -- addresses, and each whose name does not begin with egress-, whatever sets are listed, when to
  -- destroy a set leaves the others.
  pub clean_sets-keeps :
      DestroysOne
      → (names : List String) (s s' : S) → clean_sets env w names s ≡ (ok tt, s')
      → (n x : String) → Owned n
      → sets.holds n x s' ≡ sets.holds n x s
  clean_sets-keeps one names s s' h n x k = clean_sets-kept one names s s' h n x (Owned-is_kept k)
