-- ===== src/Agent/PolicyExact.antt =====
-- Proofs on updatePolicyIPSet of pkg/agent/police.go: what the sets of a policy hold.
use mathlib.Core.List.{Perm}
use mathlib.Core.Path.{subst}
use egressgateway.Prelude.{
  String, Bool, true, false, not, ◌&&◌, ◌||◌, ◌==◌, eq_iff, if◌then◌else◌, List, [], ◌∷◌, ok, ◌≡◌,
  refl, sym, ap, ◌∙◌, arith, inl, inr, Bool-cases,
}
use egressgateway.Ip.Range.{has_mark}
use egressgateway.Controller.Flow.{Exec, each}
use egressgateway.Agent.Names.{SetName, build_ipset_names_by_policy}
use egressgateway.Agent.Sets.{get_policy_src_ips, get_dst_cidr}
use egressgateway.Agent.PolicySets.{
  EntryMap, Wanted, create_ip_set, diff_sets, sync_sets, add_entries, change_entries,
  update_policy_ip_set,
}
use egressgateway.Agent.Held.{IsIpset, after-ok}
use egressgateway.Agent.Synced.{is_there, has_name, create-made}
use egressgateway.Agent.Pending.{
  has_key, pending, has_key-Perm, pending-Perm, each-add_entries, each-del_entries,
}
use egressgateway.Agent.Diffs.{
  Distinct, entries, Enabled, AllFormed, Diffs, adds, dels, diff_sets-Diffs,
}
use egressgateway.Agent.World.{Env, World, IpSet, load_set, at_server}
use egressgateway.Agent.Distinct.{
  build_ipset_names_by_policy-Enabled, build_ipset_names_by_policy-Distinct,
}

module _ {S : Type 0} (env : Env S) (sets : IsIpset env.ipset) (wanted : Wanted) where
  -- what a set holds in the end: what is wanted, in a set of the list
  unfoldable pub expected : S → String → String → List SetName → Bool
  expected s n x [] = sets.holds n x s
  expected s n x (set ∷ names) =
      if n == set.name then has_mark x (entries env wanted set) else expected s n x names

  adds-absent :
      (s : S) (n x : String) (names : List SetName)
      → has_name n names ≡ false
      → (adds env sets wanted s n x names ≡ false) × (dels env sets wanted s n x names ≡ false)
  unfolding adds dels
  adds-absent s n x [] h = (refl, refl)
  adds-absent s n x (set ∷ names) h =
      let (a, d) = adds-absent s n x names (ground (arith, h)) in
      (ground (arith, a, h), ground (arith, d, h))

  expected-changed :
      (s : S) (n x : String) (names : List SetName)
      → Distinct names
      → (not (dels env sets wanted s n x names)
          && (adds env sets wanted s n x names || sets.holds n x s))
        ≡ expected s n x names
  unfolding adds dels expected
  expected-changed s n x [] di = ground arith
  expected-changed s n x (set ∷ names) (d0, di) = elim (Bool-cases (n == set.name)) [
    | inl same ↦
        let one = (eq_iff n set.name).0 same in
        let (a, d) = adds-absent s n x names (ap (λ m. has_name m names) one ∙ d0) in
        let held = ap (λ m. sets.holds m x s) one in ground (arith, same, a, d, held)
    | inr other ↦ ground (arith, other, expected-changed s n x names di)
  ]

  expected-same :
      (s s' : S) (n x : String) (names : List SetName)
      → sets.holds n x s ≡ sets.holds n x s'
      → expected s n x names ≡ expected s' n x names
  unfolding expected
  expected-same s s' n x [] h = h
  expected-same s s' n x (set ∷ names) h = ground (arith, expected-same s s' n x names h)

  -- a call of the server
  at_server-ok :
      {A : Type 0} (m : Exec S A) (w w' : World S) (a : A)
      → at_server m w ≡ (ok a, w')
      → (m w.server ≡ (ok a, w'.server)) × (w'.ipset_map ≡ w.ipset_map)
  at_server-ok m w w' a h = (ap (λ q. (q.0, q.1.server)) h, ap (λ q. q.1.ipset_map) (sym h))

  -- the loops that add and delete, from the maps that the first loop gives
  changes-expected :
      (names : List SetName) (loaded : List IpSet) (lists : EntryMap × EntryMap) (s s' : S)
      → ((l : EntryMap) → Perm (env.order.range_ips l) l)
      → ((k : String) → has_name k names ≡ true → is_there (load_set k loaded) ≡ true)
      → Distinct names
      → Diffs env sets wanted s names ([], []) lists
      → change_entries env lists loaded s ≡ (ok tt, s')
      → (n x : String) → sets.holds n x s' ≡ expected s n x names
  unfolding has_key pending
  changes-expected names loaded lists s s' perm there di (keys, added, deleted) h n x =
      let (u, mid, first, later) =
        after-ok (each (add_entries env loaded) (env.order.range_ips lists.0) s) _ h in
      let loaded_keys : (k : String)
          → has_key k (env.order.range_ips lists.0) ≡ true
          → is_there (load_set k loaded) ≡ true =
        λ k q. there k (ground (arith, q, has_key-Perm k (perm lists.0), keys k)) in
      let put =
        each-add_entries env sets loaded (env.order.range_ips lists.0) s mid loaded_keys first n
          x in
      let cut = each-del_entries env sets (env.order.range_ips lists.1) mid s' later n x in
      ground (
        arith,
        put,
        cut,
        added n x,
        deleted n x,
        pending-Perm sets.form n x (perm lists.0),
        pending-Perm sets.form n x (perm lists.1),
      )
      ∙ expected-changed s n x names di

  -- the two last steps, from the sets that are there
  changed-expected :
      (names : List SetName) (lists : EntryMap × EntryMap) (made seen w' : World S)
      → ((l : EntryMap) → Perm (env.order.range_ips l) l)
      → Enabled env names
      → Distinct names
      → AllFormed env sets.form wanted names
      → ((k : String) → has_name k names ≡ true → is_there (load_set k made.ipset_map) ≡ true)
      → at_server (diff_sets env wanted names ([], [])) made ≡ (ok lists, seen)
      → at_server (change_entries env lists seen.ipset_map) seen ≡ (ok tt, w')
      → (n x : String) → sets.holds n x w'.server ≡ expected made.server n x names
  unfolding has_key
  changed-expected names lists made seen w' perm en di fo there second last n x =
      let (read, kept) =
        at_server-ok (diff_sets env wanted names ([], [])) made seen lists second in
      let (ran, kept') = at_server-ok (change_entries env lists seen.ipset_map) seen w' tt last in
      let (still, diffs) =
        diff_sets-Diffs env sets wanted names ([], []) lists made.server seen.server en fo di
          (λ k q. (refl, refl)) read in
      changes-expected names seen.ipset_map lists seen.server w'.server perm
        (λ k q. ap (λ m. is_there (load_set k m)) kept ∙ there k q) di
        (subst (λ v. Diffs env sets wanted v names ([], []) lists) (sym still) diffs) ran n x
      ∙ expected-same seen.server made.server n x names (ap (sets.holds n x) still)

  -- When the sets of a policy are brought to what is wanted without an error, whatever the order of
  -- the maps, sets of enabled versions and of different names, whose wanted entries are in the form
  -- in which ipset lists them: each set of the list then holds the entries that are wanted of it, as
  -- findDiff writes them, and no others, and every other set is as it was.
  pub sync_sets-exact :
      (names : List SetName) (w w' : World S)
      → ((l : EntryMap) → Perm (env.order.range_ips l) l)
      → Enabled env names
      → Distinct names
      → AllFormed env sets.form wanted names
      → sync_sets env names wanted w ≡ (ok tt, w')
      → (n x : String) → sets.holds n x w'.server ≡ expected w.server n x names
  unfolding sync_sets
  sync_sets-exact names w w' perm en di fo h n x =
      let (u, made, first, later) = after-ok (each (create_ip_set env) names w) _ h in
      let (same, there) = create-made env sets names w made en first in
      let (lists, seen, second, last) =
        after-ok (at_server (diff_sets env wanted names ([], [])) made) _ later in
      changed-expected names lists made seen w' perm en di fo (λ k q. ground (arith, there k, q))
        second last n x
      ∙ expected-same made.server w.server n x names (same n x)

-- the sets of a policy
abbrev pub policy_sets : {S : Type 0} → Env S → String → String → List SetName
policy_sets env ns name =
    build_ipset_names_by_policy env.sha1 ns name env.cfg.enable_ipv4 env.cfg.enable_ipv6

-- When updatePolicyIPSet succeeds, whatever the order of the maps, and what it reads of the
-- policy's endpoints and of its networks is, as findDiff writes it, in the form in which ipset lists
-- it, each set of the policy of an enabled version holds what is wanted of it and no more, and every
-- other set is as it was.
pub update_policy_ip_set-exact :
    {S : Type 0} (env : Env S) (sets : IsIpset env.ipset) (ns name : String) (flag : Bool)
    (dest_subnet : List String) (src_list dst_list : List String × List String) (s : S)
    (w w' : World S)
    → ((l : EntryMap) → Perm (env.order.range_ips l) l)
    → get_policy_src_ips env ns name (λ e. e.node == env.cfg.node_name || flag) w.server
      ≡ (ok src_list, s)
    → get_dst_cidr env dest_subnet ≡ ok dst_list
    → AllFormed env sets.form
        (record { src_list = src_list; dst_list = dst_list })
        (policy_sets env ns name)
    → update_policy_ip_set env ns name flag dest_subnet w ≡ (ok tt, w')
    → (n x : String)
    → sets.holds n x w'.server
      ≡ expected env sets
          (record { src_list = src_list; dst_list = dst_list })
          s
          n
          x
          (policy_sets env ns name)
unfolding update_policy_ip_set
update_policy_ip_set-exact env sets ns name flag dest_subnet src_list dst_list s w w' perm read made
      fo h n x =
    let wanted : Wanted = record { src_list = src_list; dst_list = dst_list } in
    let run : sync_sets env (policy_sets env ns name) wanted (record w { server = s })
        ≡ (ok tt, w') =
      sym (rw (read, update_policy_ip_set) (rw made refl)) ∙ h in
    sync_sets-exact env sets wanted (policy_sets env ns name) (record w { server = s }) w' perm
      (build_ipset_names_by_policy-Enabled env ns name)
      (build_ipset_names_by_policy-Distinct env.sha1 ns name env.cfg.enable_ipv4
        env.cfg.enable_ipv6)
      fo run n x
