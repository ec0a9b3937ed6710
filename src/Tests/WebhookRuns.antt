-- ===== src/Tests/WebhookRuns.antt =====
-- The theorems on the webhooks, at gateways with one address each, the address of number n being
-- written as n letters.
use egressgateway.Prelude.{
  ok, true, false, none, some, refl, String, List, All, ◌≡◌, ◌∷◌, ℕ, [], ◌⊎◌, inl,
}
use egressgateway.Prelude.Int.{pos}
use egressgateway.Ip.Address.{v4}
use egressgateway.Tests.Texts.{tally_host, tally, letters}
use egressgateway.Webhook.Requests.{WebhookConfig, WebhookClient, Operation}
use egressgateway.Api.{EgressGateway, EgressPolicySpec, Eips, EgressIpStatus}
use egressgateway.Webhook.GatewayChecks.{Pool, pool_of, egress_gateway_validate}
use egressgateway.Webhook.PolicyChecks.{validate_egress_policy}
use egressgateway.Webhook.ClusterChecks.{ClusterPolicyObject, validate_egress_cluster_policy}
use egressgateway.Webhook.Pools.{Covered, egress_gateway_validate-Covered}
use egressgateway.Webhook.Disjoint.{Apart, egress_gateway_validate-disjoint}
use egressgateway.Webhook.Accepted.{request, validate_egress_policy-same}
use egressgateway.Webhook.SameVerdict.{as_policy, verdict, validate_egress_cluster_policy_lem}
use egressgateway.Ip.Cidr.{convert_cidr_or_iprange_to_ips, put_ip}
use egressgateway.Ip.Range.{parse_ip_range, ips_diff_set, parse_ip_ranges}
use egressgateway.Ip.Merge.{is_ip_range_overlap, merge_ip_ranges}

abbrev cfg : WebhookConfig
cfg = record { enable_ipv4 = true; enable_ipv6 = false }

abbrev eip : String → Eips
eip ipv4 = record { ipv4 = ipv4; ipv6 = ""; policies = [] }

abbrev gateway_of : String → String → List EgressIpStatus → EgressGateway
gateway_of name address nodes = record {
  meta = record { name = name; namespace = ""; labels = []; finalizers = []; deleting = false };
  spec = record {
    cluster_default = false;
    ippools = record {
      ipv4 = address ∷ [];
      ipv6 = [];
      ipv4_default_eip = "";
      ipv6_default_eip = "";
    };
    node_selector = record {
      policy = "";
      selector = some (record { match_labels = ("a", "b") ∷ []; match_expressions = [] });
    };
  };
  status = record {
    node_list = nodes;
    ip_usage = record {
      ipv4_total = pos 0;
      ipv4_free = pos 0;
      ipv6_total = pos 0;
      ipv6_free = pos 0;
    };
  };
}

abbrev mine : EgressGateway
mine = gateway_of "egw" "aaa" (record { name = "n1"; eips = eip "aaa" ∷ []; status = "Ready" } ∷ [])

abbrev others : List EgressGateway
others = mine ∷ gateway_of "other" "aaaaa" [] ∷ []

abbrev server : WebhookClient ℕ
server = record {
  get_gateway = λ name s. (ok mine, s);
  list_gateways = λ s. (ok others, s);
  get_namespace = λ name s. (ok [], s);
}

abbrev pool : Pool
pool = record { ipv4_ranges = "aaa" ∷ []; ipv6_ranges = []; ipv4s = v4 3 ∷ []; ipv6s = [] }

pool_read : pool_of tally_host cfg mine.spec.ippools ≡ ok pool
unfolding pool_of convert_cidr_or_iprange_to_ips parse_ip_range mathlib.Core.List.filter_map put_ip
    tally letters
pool_read = refl

accepted :
    (operation : Operation)
    → egress_gateway_validate tally_host server cfg (request operation "egw" mine mine) 0
      ≡ (ok tt, 0)
unfolding egress_gateway_validate convert_cidr_or_iprange_to_ips parse_ip_range
    mathlib.Core.List.filter_map put_ip tally letters is_ip_range_overlap ips_diff_set
accepted Operation.create = refl
accepted Operation.update = refl
accepted Operation.delete = refl
accepted Operation.connect = refl

egress_gateway_validate-Covered_example :
    All (λ item. All (Covered tally_host pool) item.eips) mine.status.node_list
egress_gateway_validate-Covered_example =
    egress_gateway_validate-Covered tally_host server cfg "egw" mine mine mine pool 0 0 pool_read
      (λ t. refl) (accepted Operation.update)

mine_merged : merge_ip_ranges tally_host 4 ("aaa" ∷ []) ≡ ok ("aaa" ∷ [])
unfolding merge_ip_ranges convert_cidr_or_iprange_to_ips parse_ip_ranges parse_ip_range
    mathlib.Core.List.filter_map put_ip tally letters
mine_merged = refl

mine_read : parse_ip_ranges tally_host 4 ("aaa" ∷ []) ≡ ok (v4 3 ∷ [])
unfolding parse_ip_ranges parse_ip_range letters
mine_read = refl

egress_gateway_validate-disjoint_example :
    All (λ item. (item.meta.name ≡ "egw") ⊎ Apart tally_host (v4 3 ∷ []) item) others
egress_gateway_validate-disjoint_example =
    egress_gateway_validate-disjoint tally_host server cfg Operation.create "egw" mine mine others
      (v4 3 ∷ []) 0 0 refl (λ t. refl) (accepted Operation.create)
      (inl (refl, ("aaa" ∷ [], mine_merged, mine_read)))

abbrev spec : EgressPolicySpec
spec = record {
  egress_gateway_name = "egw";
  egress_ip = record { ipv4 = "aaa"; ipv6 = ""; use_node_ip = false; allocator_policy = "rr" };
}

abbrev cluster_policy : ClusterPolicyObject
cluster_policy = record {
  meta = mine.meta;
  spec = spec;
  pod_selector = mine.spec.node_selector.selector;
  pod_subnet = none;
  dest_subnet = [];
}

validate_egress_cluster_policy_lem_example :
    verdict (
      validate_egress_cluster_policy tally_host server cfg
        (request Operation.create "p1" cluster_policy cluster_policy)
        0)
    ≡ verdict (
        validate_egress_policy tally_host server cfg
          (request Operation.create "p1" (as_policy cluster_policy) (as_policy cluster_policy))
          0)
validate_egress_cluster_policy_lem_example =
    validate_egress_cluster_policy_lem tally_host server cfg Operation.create "p1" cluster_policy
      cluster_policy 0

update_accepted :
    validate_egress_policy tally_host server cfg
      (request Operation.update "p1" (as_policy cluster_policy) (as_policy cluster_policy))
      0
    ≡ (ok tt, 0)
unfolding validate_egress_policy
update_accepted = refl

validate_egress_policy-same_example :
    (cluster_policy.spec.egress_gateway_name ≡ "egw")
    × (cluster_policy.spec.egress_ip ≡ spec.egress_ip)
validate_egress_policy-same_example =
    validate_egress_policy-same tally_host server cfg "p1" (as_policy cluster_policy)
      (as_policy cluster_policy) 0 0 update_accepted
