-- ===== src/Tests/AgentRuns.antt =====
-- The theorems on the agent's sets, rules and marks, at the sets of AgentSets.
use mathlib.Core.List.Perm
use egressgateway.Prelude.{
  ◌+◌, ◌^◌, String, true, false, ◌==◌, ◌||◌, eq_iff, if◌then◌else◌, [], ◌∷◌, none, some, ok, err,
  not_found, bad_mark, nat_beq, ltb, ◌≡◌, refl, arith, All, ap, sym, ◌∙◌, Bool-cases, inl, inr,
}
use egressgateway.Ip.Address.{nil, v4, v6}
use egressgateway.Ip.Range.{has_mark, add_mark, delete_mark}
use egressgateway.MarkAllocator.Text.{add_mark_offset}
use egressgateway.Prelude.Sort.{sort_strings, insert_text, text_le}
use egressgateway.Gateway.Nodes.{Request}
use egressgateway.Controller.Flow.{each, stop}
use egressgateway.ClusterInfo.Objects.{EgressClusterInfo}
use egressgateway.Endpoint.Objects.{EgressEndpointSlice}
use egressgateway.Tests.EndpointRuns.{named, slice_with}
use egressgateway.Tests.AgentSets.{
  Entries, ipset, ipset-IsIpset, held, held-drop_set, drop_set, list_set, drop_entry, short,
}
use egressgateway.Agent.Apply.{clean_sets}
use egressgateway.Agent.ClusterCidrs.{
  reconcile_cluster_info, cluster_lists, process, cluster_set_v4, add_ip, add_cidr, pairs_v4,
  pairs_v6, set_of, delete_all, ensure_cluster_info_ip_set,
}
use egressgateway.Agent.ClusterSets.{reconcile_cluster_info-exact}
use egressgateway.Agent.Exact.{process-drops}
use egressgateway.Agent.Kept.{rules-Known, Known, rule_sets, clean_sets-keeps}
use egressgateway.Agent.Names.{build_ipset_names_by_policy, policy_name}
use egressgateway.Agent.PolicyExact.{expected, policy_sets, update_policy_ip_set-exact}
use egressgateway.Agent.PolicySets.{update_policy_ip_set}
use egressgateway.Agent.Readings.{find_diff-prefix_32, parse_mark-add_mark_offset}
use egressgateway.Agent.Rules.{
  parse_mark, build_eip_rule, build_policy_rule, egress_cluster_cidr_ipv4,
}
use egressgateway.Agent.Sets.{get_dst_cidr, find_diff, get_policy_src_ips, listed, missing_in}
use egressgateway.Agent.World.{Env, World, PoliceClient, load_set, delete_set, IpSet}

abbrev info : EgressClusterInfo
info = record {
  meta = named "" "default";
  spec = record {
    auto_detect = record { pod_cidr_mode = ""; cluster_ip = false; node_ip = true };
    extra_cidr = "c" ∷ [];
  };
  status = record {
    node_ip = ("n1", record { ipv4 = "x" ∷ []; ipv6 = [] }) ∷ [];
    cluster_ip = none;
    pod_cidr = [];
    extra_cidr = "c" ∷ [];
  };
}

-- a slice with an endpoint on this node and one on another
abbrev slice : EgressEndpointSlice
slice = slice_with "s" (
    record { namespace = "ns"; pod = "p1"; ipv4 = "b" ∷ []; ipv6 = []; node = "n1" }
    ∷ record { namespace = "ns"; pod = "p2"; ipv4 = "z" ∷ []; ipv6 = []; node = "n2" }
    ∷ [])

abbrev client : PoliceClient Entries
client = record {
  list_gateways = λ s. (ok [], s);
  get_gateway = λ name s. (err not_found, s);
  get_policy = λ ns name s. (err not_found, s);
  get_cluster_policy = λ ns name s. (err not_found, s);
  get_tunnel = λ name s. (err not_found, s);
  list_tunnels = λ s. (ok [], s);
  get_info = λ name s. (ok info, s);
  list_slices = λ ns selector s. (ok (slice ∷ []), s);
  list_cluster_slices = λ selector s. (ok [], s);
}

-- x is an IPv4 address, c an IPv4 network, and any other text with a prefix an IPv6 network
abbrev env : Env Entries
env = record {
  cfg = record {
    node_name = "n1";
    enable_ipv4 = true;
    enable_ipv6 = false;
    mark = [];
    enable_gateway_reply_route = false;
    gateway_reply_route_mark = 0;
    vxlan_name = "egress.vxlan";
  };
  client = client;
  ipset = ipset;
  tables = record {
    update_chain = λ table chain rules s. s;
    insert_or_append_rules = λ table chain rules s. s;
    apply = λ table s. (ok tt, s);
  };
  filter_tables = [];
  mangle_tables = [];
  nat_tables = [];
  order = record {
    range_policies = λ m. m;
    range_texts = λ m. m;
    range_ips = λ m. m;
    range_chains = λ m. m;
    range_pairs = λ m. m;
  };
  text = record {
    parse_ip = λ s. if s == "x" then v4 7 else nil;
    ip_string = λ ip. "x";
    parse_cidr = λ s.
        if s == "c"
        then some (v4 9, record { ip = v4 9; ones = 24; bits = 32 })
        else if s == "d::/32"
        then some (v6 13, record { ip = v6 13; ones = 32; bits = 128 })
        else none;
    is_ipv4 = λ s. true;
    is_ipv6 = λ s. true;
  };
  net_string = λ net. if nat_beq net.bits 32 then "c" else "d::/32";
  sha1 = λ s. "0123456789abcdef0123456789abcdef01234567";
  as_selector = λ selector. ok (λ labels. true);
}

-- the set of the cluster's addresses, which holds an address that is gone
abbrev old : Entries
old = (egress_cluster_cidr_ipv4, "y") ∷ (egress_cluster_cidr_ipv4, "x") ∷ []

abbrev new : Entries
new = (egress_cluster_cidr_ipv4, "c") ∷ (egress_cluster_cidr_ipv4, "x") ∷ []

abbrev req : Request
req = record { namespace = ""; name = "default" }

reconciled : reconcile_cluster_info env req old ≡ stop false new
unfolding reconcile_cluster_info cluster_lists process add_ip add_cidr pairs_v4 pairs_v6 set_of
    delete_all ensure_cluster_info_ip_set sort_strings insert_text text_le list_set drop_entry each
    add_mark delete_mark has_mark
reconciled = refl

-- texts that are their own short forms
one_short : (a : String) → short a ≡ a → (x : String) → has_mark x (a ∷ []) ≡ true → short x ≡ x
unfolding has_mark
one_short a h x k =
    ap short ((eq_iff x a).0 (ground (arith, k))) ∙ h ∙ sym ((eq_iff x a).0 (ground (arith, k)))

two_short :
    (a b : String)
    → short a ≡ a
    → short b ≡ b
    → (x : String) → has_mark x (a ∷ b ∷ []) ≡ true
    → short x ≡ x
unfolding has_mark
two_short a b h k x m = elim (Bool-cases (x == a)) [
  | inl same ↦ one_short a h x (ground (arith, same))
  | inr other ↦ one_short b k x (ground (arith, m, other))
]

lists_Formed :
    ((x : String) → has_mark x (cluster_lists env info.status).0 ≡ true → short x ≡ x)
    × ((x : String) → has_mark x (cluster_lists env info.status).1 ≡ true → short x ≡ x)
unfolding cluster_lists add_ip add_cidr pairs_v4 pairs_v6 has_mark
lists_Formed = (two_short "x" "c" refl refl, λ x h. absurd (ground (arith, h)))

reconcile_cluster_info-exact_example :
    held egress_cluster_cidr_ipv4 "y" new ≡ has_mark "y" (cluster_lists env info.status).0
reconcile_cluster_info-exact_example =
    reconcile_cluster_info-exact env ipset-IsIpset info req old new refl refl lists_Formed.0
      lists_Formed.1 reconciled egress_cluster_cidr_ipv4 "y"

-- a/32 is to stand in the set, which has it as a
dropped :
    process env cluster_set_v4 ("a" ∷ []) ("a/32" ∷ []) ((egress_cluster_cidr_ipv4, "a/32") ∷ [])
    ≡ (ok tt, [])
unfolding process set_of delete_all sort_strings insert_text drop_entry each add_mark delete_mark
    has_mark
dropped = refl

one_entry :
    (x : String)
    → has_mark x ("a" ∷ [])
      ≡ held egress_cluster_cidr_ipv4 x ((egress_cluster_cidr_ipv4, "a/32") ∷ [])
unfolding has_mark held
one_entry x = refl

process-drops_example : held egress_cluster_cidr_ipv4 "a" [] ≡ false
unfolding has_mark held
process-drops_example =
    process-drops env ipset-IsIpset cluster_set_v4 ("a" ∷ []) ("a/32" ∷ [])
      ((egress_cluster_cidr_ipv4, "a/32") ∷ []) [] one_entry dropped "a" refl refl

-- the sets of the policy p, of which one holds an entry that is gone
abbrev src_name : String
src_name = "egress-src-v4-0123456789abcdef0"

abbrev dst_name : String
dst_name = "egress-dst-v4-0123456789abcdef0"

abbrev before : World Entries
before = record { ipset_map = []; done = true; server = (src_name, "y") ∷ [] }

abbrev later : World Entries
later = record {
  ipset_map =
      record { name = dst_name; hash_family = "inet" }
      ∷ record { name = src_name; hash_family = "inet" }
      ∷ [];
  done = true;
  server = (dst_name, "c") ∷ (src_name, "b") ∷ [];
}

updated : update_policy_ip_set env "ns" "p" false ("c" ∷ []) before ≡ (ok tt, later)
unfolding update_policy_ip_set has_mark list_set missing_in load_set delete_set drop_entry
updated = refl

read_src :
    get_policy_src_ips env "ns" "p" (λ e. e.node == env.cfg.node_name || false) before.server
    ≡ (ok ("b" ∷ [], []), before.server)
unfolding get_policy_src_ips
read_src = refl

read_dst : get_dst_cidr env ("c" ∷ []) ≡ ok ("c" ∷ [], [])
unfolding get_dst_cidr
read_dst = refl

update_policy_ip_set-exact_example :
    held src_name "y" later.server
    ≡ expected env ipset-IsIpset
        (record { src_list = ("b" ∷ [], []); dst_list = ("c" ∷ [], []) })
        before.server
        src_name
        "y"
        (policy_sets env "ns" "p")
unfolding build_ipset_names_by_policy listed
update_policy_ip_set-exact_example =
    update_policy_ip_set-exact env ipset-IsIpset "ns" "p" false ("c" ∷ []) ("b" ∷ [], [])
      ("c" ∷ [], []) before.server before later Perm.refl read_src read_dst
      (one_short "b" refl, (one_short "c" refl, tt)) updated src_name "y"

-- egress-old belongs to no policy
cleaned :
    clean_sets env later ("egress-old" ∷ src_name ∷ []) (("egress-old", "q") ∷ later.server)
    ≡ (ok tt, later.server)
unfolding clean_sets drop_set
cleaned = refl

kept : (set : IpSet) × (load_set src_name later.ipset_map ≡ some set)
unfolding load_set
kept = (_, refl)

clean_sets-keeps_example :
    held src_name "b" later.server ≡ held src_name "b" (("egress-old", "q") ∷ later.server)
clean_sets-keeps_example =
    clean_sets-keeps env ipset-IsIpset later (λ name n x s h. held-drop_set name n x s h)
      ("egress-old" ∷ src_name ∷ []) (("egress-old", "q") ∷ later.server) later.server cleaned
      src_name "b" (inl kept)

rules-Known_example :
    All (Known env.sha1 "ns" "p" true false 4) (
      rule_sets
        (build_eip_rule env.sha1
          (policy_name "ns" "p")
          (record { v4 = "x"; v6 = "" })
          4
          true
          false).matches)
    × All
        (Known env.sha1 "ns" "p" true false 4)
        (rule_sets (build_policy_rule env.sha1 (policy_name "ns" "p") 5 4 true).matches)
rules-Known_example =
    rules-Known env.sha1 "ns" "p" true false (record { v4 = "x"; v6 = "" }) 5 4 true false refl

parse_mark-add_mark_offset_example :
    parse_mark (add_mark_offset 0x26000000 5)
    ≡ (if ltb (0x26000000 + 5) (2 ^ 31) then ok (0x26000000 + 5) else err bad_mark)
parse_mark-add_mark_offset_example = parse_mark-add_mark_offset 0x26000000 5 (omega arith)

find_diff-prefix_32_example :
    (get_dst_cidr env ("d::/32" ∷ []) ≡ ok ([], "d::/32" ∷ []))
    × (find_diff env [] ("d::/32" ∷ []) ≡ ("d::" ∷ [], []))
find_diff-prefix_32_example =
    find_diff-prefix_32 env "d::/32" "d::" 13 (record { ip = v6 13; ones = 32; bits = 128 }) refl
      refl
