-- ===== src/Agent/Apply.antt =====
-- initApplyPolicy of pkg/agent/police.go.
use egressgateway.Prelude.{
  ℕ, ◌%◌, ◌^◌, String, Bool, true, false, not, ◌&&◌, ◌||◌, ◌==◌, nat_beq, if◌then◌else◌, List, [],
  ◌∷◌, ◌++◌, Option, none, some, Result, ok, ◌>>=◌,
}
use egressgateway.Api.{EgressGateway, EgressIpStatus, EgressTunnel, Eips, Policy}
use egressgateway.Controller.Flow.{Exec, ◌>>>◌, lift, pure, each}
use egressgateway.ClusterInfo.Cidrs.{has_prefix}
use egressgateway.Agent.Names.{policy_name}
use egressgateway.Agent.Rules.{
  Rule, ChainRules, rule_of, ct_direction_original, reply, restore_conn_mark, full_mask, parse_mark,
  build_eip_rule, build_policy_rule, build_nat_static_rule, build_filter_static_rule,
  build_mangle_static_rule, build_prerouting_reply_routing, egress_cluster_cidr_ipv4,
  egress_cluster_cidr_ipv6,
}
use egressgateway.Agent.PolicySets.{get_policy_subnet, update_policy_ip_set}
use egressgateway.Agent.ClusterCidrs.{ensure_cluster_info_ip_set}
use egressgateway.Agent.World.{
  Env, World, IpSet, PolicyCommon, PolicyMap, Table, at_server, load_set, or_logged,
}

abbrev pub same_policy : Policy → Policy → Bool
same_policy p q = p.name == q.name && p.namespace == q.namespace

unfoldable pub put_policy : Policy → PolicyCommon → PolicyMap → PolicyMap
put_policy p val [] = (p, val) ∷ []
put_policy p val (e ∷ es) =
    let rest = put_policy p val es in if same_policy e.0 p then (p, val) ∷ es else e ∷ rest

unfoldable pub put_policies : List Policy → PolicyCommon → PolicyMap → PolicyMap
unfolding put_policy
put_policies [] val policies = policies
put_policies (p ∷ ps) val policies = put_policies ps val (put_policy p val policies)

-- the policies of other nodes and of this node, and whether this is an egress node
pub record Found : Type 0 where
  pub un_snat : PolicyMap
  pub snat : PolicyMap
  pub is_egress_node : Bool

abbrev pub is_empty_eip : Eips → Bool
is_empty_eip eip = eip.ipv4 == "" && eip.ipv6 == ""

unfoldable pub collect_here : String → List Eips → PolicyMap → PolicyMap
unfolding put_policies
collect_here node_name [] policies = policies
collect_here node_name (eip ∷ eips) policies = collect_here node_name eips (
    put_policies eip.policies
      (record {
        node_name = node_name;
        dest_subnet = [];
        ip = record { v4 = eip.ipv4; v6 = eip.ipv6 };
        use_node_ip = is_empty_eip eip;
      })
      policies)

unfoldable pub collect_there : String → List Eips → PolicyMap → PolicyMap
unfolding put_policies
collect_there node_name [] policies = policies
collect_there node_name (eip ∷ eips) policies = collect_there node_name eips (
    put_policies eip.policies
      (record {
        node_name = node_name;
        dest_subnet = [];
        ip = record { v4 = ""; v6 = "" };
        use_node_ip = false;
      })
      policies)

unfoldable pub collect_nodes : String → List EgressIpStatus → Found → Found
unfolding collect_here collect_there
collect_nodes node_name [] found = found
collect_nodes node_name (list ∷ lists) found = collect_nodes node_name lists (
    if list.name == node_name
    then record found { snat = collect_here list.name list.eips found.snat; is_egress_node = true }
    else record found { un_snat = collect_there list.name list.eips found.un_snat })

unfoldable pub collect : String → List EgressGateway → Found → Found
unfolding collect_nodes
collect node_name [] found = found
collect node_name (item ∷ items) found =
    collect node_name items (collect_nodes node_name item.status.node_list found)

abbrev pub nothing_found : Found
nothing_found = record { un_snat = []; snat = []; is_egress_node = false }

abbrev pub ignores_internal : PolicyCommon → Bool
ignores_internal val = elim val.dest_subnet [ [] ↦ true | s ∷ ss ↦ false ]

-- an IP family for which the policy's EIP has no address
abbrev pub is_left_out : ℕ → PolicyCommon → Bool
is_left_out version val =
    nat_beq version 4 && (not val.use_node_ip && val.ip.v4 == "")
    || nat_beq version 6 && (not val.use_node_ip && val.ip.v6 == "")

abbrev pub is_no_mark : EgressTunnel → Bool
is_no_mark tunnel = elim tunnel.status.mark [ [] ↦ true | c ∷ s ↦ false ]

abbrev pub is_loaded : Option IpSet → Bool
is_loaded none = false
is_loaded (some set) = true

module _ {S : Type 0} (env : Env S) where
  abbrev pub full_name : Policy → String
  full_name p = policy_name p.namespace p.name

  -- the loops that bring the sets of the policies up to date; they give the map its subnets
  unfoldable pub sync_policies : Bool → PolicyMap → Exec (World S) PolicyMap
  unfolding get_policy_subnet update_policy_ip_set
  sync_policies is_eip_node_set [] = pure []
  sync_policies is_eip_node_set ((p, val) ∷ policies) =
      at_server (get_policy_subnet env p.namespace p.name) >>> λ subnet.
      update_policy_ip_set env p.namespace p.name is_eip_node_set subnet >>> λ _.
      sync_policies is_eip_node_set policies >>> λ rest.
      pure ((p, record val { dest_subnet = subnet }) ∷ rest)

  -- table.InsertOrAppendRules for each chain
  unfoldable pub insert_chains : Table → ChainRules → S → S
  insert_chains table [] s = s
  insert_chains table (c ∷ cs) s =
      insert_chains table cs (env.tables.insert_or_append_rules table c.0 c.1 s)

  abbrev pub set_chain : Table → String → List Rule → Exec S (Unit {0})
  set_chain table chain rules s = (ok tt, env.tables.update_chain table chain rules s)

  abbrev pub set_static : Table → ChainRules → Exec S (Unit {0})
  set_static table rules s = (ok tt, insert_chains table (env.order.range_chains rules) s)

  -- the rules that mark the packets of policies of other nodes; a tunnel that cannot be read is
  -- passed over
  abbrev pub mark_rule : Table → Policy → PolicyCommon → Option EgressTunnel → Result (List Rule)
  mark_rule table p val none = ok []
  mark_rule table p val (some node) = parse_mark node.status.mark >>= λ mark.
      ok
        (build_policy_rule env.sha1 (full_name p) mark table.ip_version (ignores_internal val) ∷ [])

  unfoldable pub mark_rules : Table → PolicyMap → Exec S (List Rule)
  unfolding parse_mark build_policy_rule
  mark_rules table [] = pure []
  mark_rules table ((p, val) ∷ policies) =
      (λ s. or_logged (env.client.get_tunnel val.node_name s)) >>> λ node.
      lift (mark_rule table p val node) >>> λ rule.
      mark_rules table policies >>> λ rest. pure (rule ++ rest)

  -- the rules that route replies to the tunnels of other nodes
  unfoldable pub reply_rules : ℕ → List EgressTunnel → Result (List Rule)
  unfolding build_prerouting_reply_routing
  reply_rules base_mark [] = ok []
  reply_rules base_mark (tunnel ∷ tunnels) =
      let rest = reply_rules base_mark tunnels in
      if tunnel.meta.name == env.cfg.node_name
        || (is_no_mark tunnel || tunnel.status.tunnel.mac == "")
      then rest
      else (build_prerouting_reply_routing env.cfg.vxlan_name base_mark tunnel.status.mark
            tunnel.status.tunnel.mac
          >>= λ rule. rest >>= λ rules. ok (rule ++ rules))

  abbrev pub restore_rule : Rule
  restore_rule =
      rule_of (ct_direction_original reply ∷ []) (restore_conn_mark full_mask)
        "label for restoring connections, rule is from the EgressGateway"

  -- the rules of the nat tables
  unfoldable pub snat_rules : ℕ → PolicyMap → List Rule
  unfolding build_eip_rule
  snat_rules version [] = []
  snat_rules version ((p, val) ∷ policies) =
      let rest = snat_rules version policies in
      if is_left_out version val
      then rest
      else build_eip_rule env.sha1 (full_name p) val.ip version (ignores_internal val)
          val.use_node_ip
        ∷ rest

  -- the loops over the tables
  unfoldable pub set_filter : ℕ → Table → Exec S (Unit {0})
  unfolding insert_chains build_filter_static_rule
  set_filter base_mark table = set_static table (build_filter_static_rule base_mark)

  unfoldable pub clear_mangle : ℕ → Bool → Table → Exec S (Unit {0})
  unfolding insert_chains build_mangle_static_rule
  clear_mangle base_mark is_egress_node table =
      set_chain table "EGRESSGATEWAY-REPLY-ROUTING" [] >>> λ _.
      set_chain table "EGRESSGATEWAY-MARK-REQUEST" [] >>> λ _. set_static table (
        build_mangle_static_rule base_mark is_egress_node env.cfg.enable_gateway_reply_route
          (env.cfg.gateway_reply_route_mark % 2 ^ 32))

  unfoldable pub fill_mangle : ℕ → PolicyMap → Table → Exec S (Unit {0})
  unfolding mark_rules reply_rules
  fill_mangle base_mark un_snat table =
      mark_rules table (env.order.range_policies un_snat) >>> λ rules.
      set_chain table "EGRESSGATEWAY-MARK-REQUEST" rules >>> λ _.
      env.client.list_tunnels >>> λ tunnels. lift (reply_rules base_mark tunnels) >>> λ replies.
      set_chain table "EGRESSGATEWAY-REPLY-ROUTING" (replies ++ restore_rule ∷ [])

  unfoldable pub fill_nat : ℕ → PolicyMap → Table → Exec S (Unit {0})
  unfolding snat_rules insert_chains build_nat_static_rule
  fill_nat base_mark snat table =
      set_chain table "EGRESSGATEWAY-SNAT-EIP"
        (snat_rules table.ip_version (env.order.range_policies snat))
      >>> λ _. set_static table (build_nat_static_rule base_mark)

  -- the sets that no policy has any more
  abbrev pub is_kept : World S → String → Bool
  is_kept w name =
      not (has_prefix name "egress-")
      || (name == egress_cluster_cidr_ipv6 || name == egress_cluster_cidr_ipv4)
      || is_loaded (load_set name w.ipset_map)

  unfoldable pub clean_sets : World S → List String → Exec S (Unit {0})
  unfolding has_prefix load_set
  clean_sets w [] = pure tt
  clean_sets w (name ∷ names) =
      if is_kept w name
      then clean_sets w names
      else ((λ s. or_logged (env.ipset.destroy_set name s)) >>> λ _. clean_sets w names)

  -- what initApplyPolicy does after the sets are up to date
  unfoldable pub apply_rules : Bool → PolicyMap → PolicyMap → ℕ → Exec S (Unit {0})
  unfolding set_filter clear_mangle fill_mangle fill_nat each
  apply_rules is_egress_node un_snat snat base_mark =
      each (set_filter base_mark) env.filter_tables >>> λ _.
      each (clear_mangle base_mark is_egress_node) env.mangle_tables >>> λ _.
      each (fill_mangle base_mark un_snat) env.mangle_tables >>> λ _.
      each (fill_nat base_mark snat) env.nat_tables >>> λ _.
      each env.tables.apply (env.nat_tables ++ (env.filter_tables ++ env.mangle_tables))

  abbrev pub apply_found : Found → Exec (World S) (Unit {0})
  apply_found found = sync_policies false (env.order.range_policies found.un_snat) >>> λ un_snat.
      sync_policies true (env.order.range_policies found.snat) >>> λ snat.
      lift (parse_mark env.cfg.mark) >>> λ base_mark.
      at_server (apply_rules found.is_egress_node un_snat snat base_mark) >>> λ _.
      at_server env.ipset.list_sets >>> λ set_list w. at_server (clean_sets w set_list) w

  -- initApplyPolicy
  unfoldable pub init_apply_policy : Exec (World S) (Unit {0})
  unfolding ensure_cluster_info_ip_set collect sync_policies parse_mark apply_rules clean_sets
  init_apply_policy = at_server env.client.list_gateways >>> λ gateways. elim gateways [
    | [] ↦ pure tt
    | g ∷ gs ↦ at_server (ensure_cluster_info_ip_set env) >>> λ _.
        apply_found (collect env.cfg.node_name (g ∷ gs) nothing_found)
  ]
