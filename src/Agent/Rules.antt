-- ===== src/Agent/Rules.antt =====
-- The rules that pkg/agent/police.go builds, and parseMark. A criterion and an action are the call
-- of pkg/iptables that makes them.
use Prim.Native.String.{◌++◌}
use mathlib.Core.List.{List, [], ◌∷◌}
use egressgateway.Prelude.{
  ℕ, ◌-◌, ◌^◌, ◌%◌, String, Bool, nat_beq, leb, if◌then◌else◌, Result, ok, err, ◌>>=◌, bad_mark,
}
use egressgateway.MarkAllocator.Text.{Bytes, replace_0x, parse_uint}
use egressgateway.Agent.Names.{format_ipset_name}

-- iptables.DirectionOriginal and DirectionReply
pub data Direction : Type 0 where
  original reply : Direction

-- what a call of a method of iptables.MatchCriteria adds
pub data Criterion : Type 0 where
  source_ip_set dest_ip_set not_dest_ip_set : String → Criterion
  ct_direction_original : Direction → Criterion
  mark_matches_with_mask : ℕ → ℕ → Criterion
  in_interface src_mac_source : String → Criterion

pub data Action : Type 0 where
  snat : String → Action
  masq accept : Action
  set_masked_mark : ℕ → ℕ → Action
  jump : String → Action
  save_conn_mark restore_conn_mark : ℕ → Action

pub record Rule : Type 0 where
  pub matches : List Criterion
  pub action : Action
  pub comment : List String

-- a map from the names of chains to their rules
abbrev pub ChainRules : Type 0
ChainRules = List (String × List Rule)

abbrev pub egress_cluster_cidr_ipv4 : String
egress_cluster_cidr_ipv4 = "egress-cluster-cidr-ipv4"

abbrev pub egress_cluster_cidr_ipv6 : String
egress_cluster_cidr_ipv6 = "egress-cluster-cidr-ipv6"

-- Mark and Mask
abbrev pub mark_mask : ℕ
mark_mask = 0xff000000

abbrev pub full_mask : ℕ
full_mask = 0xffffffff

-- the type IP
pub record PolicyIp : Type 0 where
  pub v4 : String
  pub v6 : String

-- strconv.ParseInt at base 16 and 32 bits, and uint32 of what it returns
abbrev pub positive : ℕ → Result ℕ
positive n = if leb (2 ^ 31) n then err bad_mark else ok n

abbrev pub negative : ℕ → Result ℕ
negative n = if leb n (2 ^ 31) then ok ((2 ^ 32 - n) % 2 ^ 32) else err bad_mark

unfoldable pub parse_int32 : Bytes → Result ℕ
parse_int32 [] = err bad_mark
parse_int32 (c ∷ s) =
    if nat_beq c b'+'
    then parse_uint s >>= positive
    else if nat_beq c b'-'
    then parse_uint s >>= negative
    else parse_uint (c ∷ s) >>= positive

-- parseMark
unfoldable pub parse_mark : Bytes → Result ℕ
unfolding parse_int32
parse_mark mark = parse_int32 (replace_0x mark)

-- the part of a set's name that says the version, and the set of the cluster's addresses
abbrev pub version_part : ℕ → String
version_part version = if nat_beq version 6 then "v6-" else "v4-"

abbrev pub ignore_name : ℕ → String
ignore_name version =
    if nat_beq version 6 then egress_cluster_cidr_ipv6 else egress_cluster_cidr_ipv4

module _ (sha1 : String → String) where
  -- the criteria of buildEipRule and of buildPolicyRule
  abbrev pub policy_criteria : String → ℕ → Bool → List Criterion
  policy_criteria policy_name version is_ignore_internal_cidr =
      let src_name = format_ipset_name sha1 ("egress-src-" ++ version_part version) policy_name in
      let dst_name = format_ipset_name sha1 ("egress-dst-" ++ version_part version) policy_name in
      if is_ignore_internal_cidr
      then source_ip_set src_name
        ∷ not_dest_ip_set (ignore_name version)
        ∷ ct_direction_original original
        ∷ []
      else source_ip_set src_name ∷ dest_ip_set dst_name ∷ ct_direction_original original ∷ []

  -- buildEipRule
  unfoldable pub build_eip_rule : String → PolicyIp → ℕ → Bool → Bool → Rule
  build_eip_rule policy_name eip version is_ignore_internal_cidr use_node_ip =
      let ip = if nat_beq version 6 then eip.v6 else eip.v4 in
      record {
        matches = policy_criteria policy_name version is_ignore_internal_cidr;
        action = if use_node_ip then masq else snat ip;
        comment = ("snat policy " ++ policy_name) ∷ [];
      }

  -- buildPolicyRule
  unfoldable pub build_policy_rule : String → ℕ → ℕ → Bool → Rule
  build_policy_rule policy_name mark version is_ignore_internal_cidr = record {
    matches = policy_criteria policy_name version is_ignore_internal_cidr;
    action = set_masked_mark mark full_mask;
    comment = ("Set mark for EgressPolicy " ++ policy_name) ∷ [];
  }

abbrev pub rule_of : List Criterion → Action → String → Rule
rule_of matches action comment = record {
  matches = matches;
  action = action;
  comment = comment ∷ [];
}

-- buildNatStaticRule
unfoldable pub build_nat_static_rule : ℕ → ChainRules
build_nat_static_rule base =
    (
      "POSTROUTING",
      rule_of [] (jump "EGRESSGATEWAY-SNAT-EIP") "SNAT for egress traffic"
          ∷ rule_of (mark_matches_with_mask base full_mask ∷ []) accept
              "Accept for egress traffic from pod going to EgressTunnel"
          ∷ [],
    )
    ∷ (
      "PREROUTING",
      rule_of (mark_matches_with_mask base mark_mask ∷ []) accept
            "EgressGateway traffic accept datapath rule"
          ∷ [],
    )
    ∷ []

-- buildFilterStaticRule
unfoldable pub build_filter_static_rule : ℕ → ChainRules
build_filter_static_rule base =
    let rules =
      rule_of (mark_matches_with_mask base full_mask ∷ []) accept
        "Accept for egress traffic from pod going to EgressTunnel"
      ∷ [] in
    ("FORWARD", rules) ∷ ("OUTPUT", rules) ∷ []

-- buildMangleStaticRule: the rules of the chains PREROUTING and POSTROUTING, and all of them
abbrev pub mangle_prerouting : ℕ → Bool → List Rule
mangle_prerouting base is_egress_node =
    let accepted = rule_of (mark_matches_with_mask base mark_mask ∷ []) accept in
    rule_of [] (jump "EGRESSGATEWAY-MARK-REQUEST") "Checking for EgressPolicy matched traffic"
    ∷ accepted "EgressGateway traffic accept datapath rule"
    ∷ (if is_egress_node
        then rule_of [] (jump "EGRESSGATEWAY-REPLY-ROUTING")
            "EgressGateway reply datapath rule, rule is from the EgressGateway"
          ∷ accepted "EgressGateway reply datapath rule, rule is from the EgressGateway"
          ∷ []
        else [])

abbrev pub mangle_postrouting : ℕ → Bool → ℕ → List Rule
mangle_postrouting base is_egress_node reply_mark =
    rule_of (mark_matches_with_mask base full_mask ∷ []) accept
      "Accept for egress traffic from pod going to EgressTunnel"
    ∷ (if is_egress_node
        then rule_of (mark_matches_with_mask reply_mark full_mask ∷ [])
            (set_masked_mark 0 full_mask)
            "clear the Mark of the inner package, rule is from the EgressGateway"
          ∷ []
        else [])

unfoldable pub build_mangle_static_rule : ℕ → Bool → Bool → ℕ → ChainRules
build_mangle_static_rule base is_egress_node enable_gateway_reply_route reply_mark =
    (
      "FORWARD",
      rule_of (mark_matches_with_mask base mark_mask ∷ []) (set_masked_mark base full_mask)
            "Accept for egress traffic from pod going to EgressTunnel"
          ∷ [],
    )
    ∷ ("POSTROUTING", mangle_postrouting base is_egress_node reply_mark)
    ∷ ("PREROUTING", mangle_prerouting base is_egress_node)
    ∷ []

-- buildPreroutingReplyRouting
unfoldable pub build_prerouting_reply_routing : String → ℕ → Bytes → String → Result (List Rule)
unfolding parse_mark
build_prerouting_reply_routing vxlan_name base reply_mark mac = parse_mark reply_mark >>= λ mark.
    ok (
      rule_of (in_interface vxlan_name ∷ src_mac_source mac ∷ ct_direction_original original ∷ [])
        (set_masked_mark mark full_mask)
        "Mark the traffic from the EgressGateway tunnel, rule is from the EgressGateway"
      ∷ rule_of (mark_matches_with_mask mark full_mask ∷ []) (save_conn_mark full_mask)
          "Save mark to the connection, rule is from the EgressGateway"
      ∷ rule_of (in_interface vxlan_name ∷ src_mac_source mac ∷ []) (set_masked_mark base full_mask)
          "Clear Mark of the inner package, rule is from the EgressGateway"
      ∷ [])
