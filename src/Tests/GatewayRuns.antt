-- ===== src/Tests/GatewayRuns.antt =====
-- The theorems on a gateway's status, at the gateway of Clusters.
use egressgateway.Prelude.{
  ℕ, ◌+◌, ◌-◌, ◌≡◌, refl, true, false, List, [], ◌∷◌, ◌++◌, none, some, All, modify, ok, nat_beq,
  if◌then◌else◌, inl, ◌⊎◌, inr, arith, eq_iff,
}
use egressgateway.Api.{EgressGateway, Eips, EgressIpStatus}
use egressgateway.Ip.Address.{cmp, next_ip}
use egressgateway.Ip.Range.{parse_ip_range, parse_ip_ranges, range_loop, ips_diff_set}
use egressgateway.Ip.Cidr.{put_ip, convert_cidr_or_iprange_to_ips}
use egressgateway.Ip.Merge.{merge_ip_ranges}
use mathlib.Core.List.{filter_map}
use egressgateway.Gateway.Lookup.{AssignedIp, get_assigned_ip, delete_egress_policy}
use egressgateway.Gateway.Nodes.{is_ready, select_node, keep_best, with_nodes}
use egressgateway.Gateway.Assign.{assign_ip}
use egressgateway.Gateway.Move.{
  move_eip_to_ready_node, select_target, keep_target, move_one, node_ip_index,
}
use egressgateway.Gateway.Recorded.{as_read, get_assigned_ip-assign_ip}
use egressgateway.Gateway.Shared.{IsDefault, assign_ip-shared_default}
use egressgateway.Gateway.Frame.{assign_ip-Keeps}
use egressgateway.Gateway.Least.{AtLeast, ReadyAt, select_node_least}
use egressgateway.Gateway.Counts.{
  eips_count, nodes_count, move_eip_to_ready_node-count, delete_egress_policy-count,
}
use egressgateway.Gateway.Target.{move_eip_to_ready_node-append}
use egressgateway.Tests.Clusters.{
  toy_host, web, mail, first_eip, second_eip, mail_policy, node1, node2, node3, gateway, cluster,
  by_default, by_rr,
}

abbrev mail_at : AssignedIp
mail_at = record { node = "node2"; ipv4 = "10.6.0.2"; ipv6 = ""; use_node_ip = false }

abbrev after_mail : EgressGateway
after_mail = gateway (node1 ∷ record node2 { eips = second_eip ∷ [] } ∷ node3 ∷ [])

mail_runs : assign_ip toy_host cluster mail by_rr ≡ ok (some mail_at, after_mail)
unfolding assign_ip merge_ip_ranges convert_cidr_or_iprange_to_ips parse_ip_ranges ips_diff_set
    parse_ip_range cmp range_loop next_ip filter_map put_ip keep_best
mail_runs = refl

mail_absent : get_assigned_ip cluster "default" "mail" ≡ none
unfolding get_assigned_ip
mail_absent = refl

get_assigned_ip-assign_ip_example :
    get_assigned_ip after_mail "default" "mail" ≡ some (as_read mail_at)
get_assigned_ip-assign_ip_example =
    get_assigned_ip-assign_ip toy_host cluster mail by_rr mail_at after_mail mail_absent (inl refl)
      mail_runs

assign_ip-Keeps_example :
    get_assigned_ip after_mail "default" "web" ≡ get_assigned_ip cluster "default" "web"
assign_ip-Keeps_example =
    assign_ip-Keeps "default" "web" mail refl cluster (some mail_at) after_mail toy_host by_rr
      mail_runs

-- the default EIP at the second node
abbrev shared : EgressGateway
shared = gateway (record node2 { eips = second_eip ∷ [] } ∷ node1 ∷ node3 ∷ [])

second_is_other : ¬ IsDefault shared second_eip
second_is_other (inl (named, e)) = absurd (ground (arith, (eq_iff second_eip.ipv4 "10.6.0.1").1 e))
second_is_other (inr (named, e)) = named refl

assign_ip-shared_default_example :
    assign_ip toy_host shared mail by_default
    ≡ ok (
      some (record { node = "node1"; ipv4 = "10.6.0.1"; ipv6 = ""; use_node_ip = false }),
      shared,
    )
assign_ip-shared_default_example =
    assign_ip-shared_default shared toy_host mail by_default
      (record node2 { eips = second_eip ∷ [] } ∷ []) (node3 ∷ []) node1 [] [] first_eip refl refl
      refl (inl (λ e. cc, refl)) ((second_is_other, tt), tt) (λ e. cc)

apart : (web.namespace ≡ mail.namespace) × (mail.name ≡ web.name) → ⊥
apart (_, e) = cc

abbrev nodes : List EgressIpStatus
nodes = node1 ∷ node2 ∷ node3 ∷ []

select_node_least_example :
    ((select_node 0 none nodes ≡ none) × All (λ m. is_ready m ≡ false) nodes)
    ⊎ ((i : ℕ) × (n : ℕ) × (select_node 0 none nodes ≡ some (i, n))
        × AtLeast n nodes
        × ReadyAt nodes i n)
select_node_least_example = select_node_least nodes

selects : select_node 0 none cluster.status.node_list ≡ some (1, 0)
unfolding select_node keep_best
selects = refl

abbrev moved : EgressGateway
moved =
    with_nodes cluster
      (modify cluster.status.node_list 1 (λ m. record m { eips = m.eips ++ second_eip ∷ [] }))

moved_runs : move_eip_to_ready_node cluster (second_eip ∷ []) ≡ ok (moved, [])
unfolding move_eip_to_ready_node select_target keep_target move_one
moved_runs = refl

move_eip_to_ready_node-append_example :
    move_eip_to_ready_node cluster (second_eip ∷ []) ≡ ok (moved, [])
move_eip_to_ready_node-append_example =
    move_eip_to_ready_node-append cluster (second_eip ∷ []) 1 0 selects (refl, tt)

move_eip_to_ready_node-count_example :
    nodes_count "default" "mail" moved.status.node_list + eips_count "default" "mail" []
    ≡ nodes_count "default" "mail" cluster.status.node_list
      + eips_count "default" "mail" (second_eip ∷ [])
move_eip_to_ready_node-count_example =
    move_eip_to_ready_node-count "default" "mail" cluster (second_eip ∷ []) moved [] moved_runs

delete_egress_policy-count_example :
    ((delete_egress_policy cluster "default" "web").0
      ≡ (if nat_beq (nodes_count "default" "web" cluster.status.node_list) 0 then false else true))
    × (nodes_count "default" "web" (delete_egress_policy cluster "default" "web").1.status.node_list
        ≡ nodes_count "default" "web" cluster.status.node_list - 1)
delete_egress_policy-count_example = delete_egress_policy-count "default" "web" cluster

-- the first node has an EIP and then the node's own address
abbrev own : Eips
own = record { ipv4 = ""; ipv6 = ""; policies = mail_policy ∷ [] }

abbrev two : EgressIpStatus
two = record node1 { eips = first_eip ∷ own ∷ [] }

own_index : node_ip_index 0 none two.eips ≡ some 1
unfolding node_ip_index
own_index = refl
