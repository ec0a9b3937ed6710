-- ===== src/Agent/PolicySets.antt =====
-- createIPSet, removeIPSet, getPolicySubnet and updatePolicyIPSet of pkg/agent/police.go.
use egressgateway.Prelude.{
  String, Bool, true, false, not, ◌&&◌, ◌||◌, ◌==◌, if◌then◌else◌, List, [], ◌∷◌, Option, none,
  some, Error, Result, ok, err, message,
}
use egressgateway.Webhook.PolicyChecks.{PolicyObject}
use egressgateway.Controller.Flow.{Exec, ◌>>>◌, lift, pure, each}
use egressgateway.ClusterInfo.Cidrs.{contains_text}
use egressgateway.Agent.Names.{
  SetName, IpStack, ipv4, ipv6, IpKind, src, dst, hash_family, build_ipset_names_by_policy,
}
use egressgateway.Agent.Sets.{expand_any_cidr, find_diff, get_dst_cidr, get_policy_src_ips}
use egressgateway.Agent.World.{
  Env, World, IpSet, at_server, load_set, store_set, delete_set, or_missing,
}

-- a map from the names of sets to entries
abbrev pub EntryMap : Type 0
EntryMap = List (String × List String)

unfoldable pub put_entries : String → List String → EntryMap → EntryMap
put_entries name ips [] = (name, ips) ∷ []
put_entries name ips (e ∷ es) =
    let rest = put_entries name ips es in if e.0 == name then (name, ips) ∷ es else e ∷ rest

-- the addresses and networks of a policy, of both versions
pub record Wanted : Type 0 where
  pub src_list : List String × List String
  pub dst_list : List String × List String

abbrev pub kind_list : IpKind → Wanted → List String × List String
kind_list src wanted = wanted.src_list
kind_list dst wanted = wanted.dst_list

-- the text of ListEntries for a set that is not there
abbrev pub is_no_set : Error → Bool
is_no_set (message text) = contains_text text "The set with the given name does not exist"
is_no_set _ = false

module _ {S : Type 0} (env : Env S) where
  -- createIPSet
  abbrev pub is_stack_v4 : IpStack → Bool
  is_stack_v4 ipv4 = true
  is_stack_v4 ipv6 = false

  abbrev pub is_disabled : IpStack → Bool
  is_disabled ipv4 = not env.cfg.enable_ipv4
  is_disabled ipv6 = not env.cfg.enable_ipv6

  unfoldable pub create_ip_set : SetName → Exec (World S) (Unit {0})
  unfolding load_set delete_set
  create_ip_set set w =
      let ip_set : IpSet = record { name = set.name; hash_family = hash_family set.stack } in
      elim (load_set set.name w.ipset_map) [
        | some old ↦ (ok tt, w)
        | none ↦
            if is_disabled set.stack
            then (ok tt, w)
            else (at_server (env.ipset.create_set ip_set) >>> λ _ w'.
                  (ok tt, record w' { ipset_map = store_set ip_set w'.ipset_map }))
                w
      ]

  -- removeIPSet
  unfoldable pub remove_ip_set : String → World S → World S
  unfolding load_set delete_set
  remove_ip_set name w = elim (load_set name w.ipset_map) [
    | none ↦ w
    | some set ↦
        let r = env.ipset.destroy_set name w.server in
        record w { ipset_map = delete_set name w.ipset_map; server = r.1 }
  ]

  -- getPolicySubnet; without the policy there are no subnets
  abbrev pub subnets_of : Option PolicyObject → List String
  subnets_of none = expand_any_cidr env []
  subnets_of (some policy) = expand_any_cidr env policy.dest_subnet

  unfoldable pub get_policy_subnet : String → String → Exec S (List String)
  get_policy_subnet ns name =
      (λ s. or_missing (
        (if ns == "" then env.client.get_cluster_policy ns name else env.client.get_policy ns name)
          s))
      >>> λ found. pure (subnets_of found)

  -- what the switch of updatePolicyIPSet compares with, none where no branch is taken
  abbrev pub wanted_list : SetName → Wanted → Option (List String)
  wanted_list set wanted =
      let lists = kind_list set.kind wanted in
      if is_stack_v4 set.stack && env.cfg.enable_ipv4
      then some lists.0
      else if env.cfg.enable_ipv6
      then some lists.1
      else none

  -- ListEntries, where a set that is not there has none
  abbrev pub or_no_set : Result (List String) × S → Result (List String) × S
  or_no_set (err e, s) = if is_no_set e then (ok [], s) else (err e, s)
  or_no_set (r, s) = (r, s)

  -- the loop that fills toAddList and toDelList
  unfoldable pub diff_sets :
      Wanted → List SetName → EntryMap × EntryMap → Exec S (EntryMap × EntryMap)
  unfolding find_diff put_entries contains_text
  diff_sets wanted [] lists = pure lists
  diff_sets wanted (set ∷ sets) lists =
      (λ s. or_no_set (env.ipset.list_entries set.name s)) >>> λ old_ip_list.
      diff_sets wanted sets (elim (wanted_list set wanted) [
        | none ↦ lists
        | some new_ip_list ↦
            let diff = find_diff env old_ip_list new_ip_list in
            (put_entries set.name diff.0 lists.0, put_entries set.name diff.1 lists.1)
      ])

  -- AddEntry, where an entry that is there is no error
  abbrev pub or_already_added : Result (Unit {0}) × S → Result (Unit {0}) × S
  or_already_added (err e, s) = if env.ipset.is_already_added e then (ok tt, s) else (err e, s)
  or_already_added (r, s) = (r, s)

  -- the loops that add and that delete; a set that the map does not have is passed over
  unfoldable pub add_entries : List IpSet → String × List String → Exec S (Unit {0})
  unfolding load_set each
  add_entries sets (name, ips) = elim (load_set name sets) [
    | none ↦ pure tt
    | some ip_set ↦ each (λ ip s. or_already_added (env.ipset.add_entry ip ip_set s)) ips
  ]

  unfoldable pub del_entries : String × List String → Exec S (Unit {0})
  unfolding each
  del_entries (name, ips) = each (λ ip. env.ipset.del_entry ip name) ips

  abbrev pub change_entries : EntryMap × EntryMap → List IpSet → Exec S (Unit {0})
  change_entries lists sets = each (add_entries sets) (env.order.range_ips lists.0) >>> λ _.
      each del_entries (env.order.range_ips lists.1)

  -- the sets of a policy brought to what is wanted
  unfoldable pub sync_sets : List SetName → Wanted → Exec (World S) (Unit {0})
  unfolding create_ip_set diff_sets add_entries del_entries each
  sync_sets set_names wanted = each create_ip_set set_names >>> λ _.
      at_server (diff_sets wanted set_names ([], [])) >>> λ lists w.
      at_server (change_entries lists w.ipset_map) w

  -- updatePolicyIPSet
  unfoldable pub update_policy_ip_set :
      String → String → Bool → List String → Exec (World S) (Unit {0})
  unfolding sync_sets get_policy_src_ips get_dst_cidr build_ipset_names_by_policy
  update_policy_ip_set policy_ns policy_name is_eip_node_set dest_subnet =
      at_server (
        get_policy_src_ips env policy_ns policy_name
          (λ e. e.node == env.cfg.node_name || is_eip_node_set))
      >>> λ src_list. lift (get_dst_cidr env dest_subnet) >>> λ dst_list.
          sync_sets
            (build_ipset_names_by_policy env.sha1 policy_ns policy_name env.cfg.enable_ipv4
              env.cfg.enable_ipv6)
            (record { src_list = src_list; dst_list = dst_list })
