-- ===== src/Controller/Status.antt =====
-- pkg/egressgateway/egress_gateway.go: writing the statuses of policies and of gateways.
use egressgateway.Prelude.{
  Bool, not, ◌||◌, ◌&&◌, List, ◌==◌, if◌then◌else◌, Result, ok, err, panic, no_fuel, Error,
}
use egressgateway.Api.{Policy, Eips, EgressIpStatus, EgressGateway, EgressPolicy}
use egressgateway.Ip.Text.{Host}
use egressgateway.Gateway.Lookup.{AssignedIp}
use egressgateway.Gateway.Usage.{count_gateway_ip}
use egressgateway.Controller.Flow.{is_not_found, is_conflict, Exec, ◌>>>◌, pure, lift, each}
use egressgateway.Controller.Client.{Client}

-- the status differs from the assignment
abbrev pub needs_update : EgressPolicy → AssignedIp → Bool
needs_update policy a =
    not (policy.status.eip.ipv4 == a.ipv4)
    || (not (policy.status.eip.ipv6 == a.ipv6) || not (policy.status.node == a.node))

abbrev pub with_assigned : EgressPolicy → AssignedIp → EgressPolicy
with_assigned policy a = record policy {
  status = record { eip = record { ipv4 = a.ipv4; ipv6 = a.ipv6 }; node = a.node };
}

module _ {S : Type 0} where
  -- After a conflict the policy is read again, which drops the new status, and written back; the
  -- error that is returned in the end is the conflict.
  abbrev reread :
      (EgressPolicy → Exec S (Unit {0})) → Result EgressPolicy × S → Result (Unit {0}) × S
  reread update (ok policy, s) = (update policy >>> λ _. lift (err Error.conflict)) s
  reread update (err e, s) = if is_not_found e then (err e, s) else (ok tt, s)
  reread update (panic, s) = (panic, s)
  reread update (no_fuel, s) = (no_fuel, s)

  abbrev updated :
      Exec S EgressPolicy
      → (EgressPolicy → Exec S (Unit {0}))
      → Result (Unit {0}) × S
      → Result (Unit {0}) × S
  updated get update (err e, s) = if is_conflict e then reread update (get s) else (err e, s)
  updated get update (ok u, s) = (ok u, s)
  updated get update (panic, s) = (panic, s)
  updated get update (no_fuel, s) = (no_fuel, s)

  unfoldable pub write_status :
      Exec S EgressPolicy → (EgressPolicy → Exec S (Unit {0})) → EgressPolicy → Exec S (Unit {0})
  write_status get update policy s = updated get update (update policy s)

module _ {S : Type 0} (cli : Client S) where
  -- updateEgressPolicyIfNeed (which nothing calls): it compares the IPv4 address with both
  unfoldable pub update_egress_policy_if_need : EgressPolicy → AssignedIp → Exec S (Unit {0})
  update_egress_policy_if_need policy a =
      if not (policy.spec.egress_ip.ipv4 == a.ipv4) || not (policy.spec.egress_ip.ipv4 == a.ipv6)
      then cli.update_policy (record policy {
        spec = record (policy.spec) {
          egress_ip = record (policy.spec.egress_ip) { ipv4 = a.ipv4; ipv6 = a.ipv6 };
        };
      })
      else pure tt

  -- updateEgressPolicyStatusIfNeed
  unfoldable pub update_egress_policy_status_if_need : EgressPolicy → AssignedIp → Exec S (Unit {0})
  unfolding write_status
  update_egress_policy_status_if_need policy a =
      if needs_update policy a
      then write_status (cli.get_policy policy.meta.namespace policy.meta.name)
          cli.update_policy_status (with_assigned policy a)
      else pure tt

  -- updateEgressClusterPolicyStatusIfNeed
  unfoldable pub update_egress_cluster_policy_status_if_need :
      EgressPolicy → AssignedIp → Exec S (Unit {0})
  unfolding write_status
  update_egress_cluster_policy_status_if_need policy a =
      if needs_update policy a
      then write_status (cli.get_cluster_policy policy.meta.namespace policy.meta.name)
          cli.update_cluster_policy_status (with_assigned policy a)
      else pure tt

  -- updateGatewayStatusWithUsage: the gateway is changed through its pointer, so it is returned
  unfoldable pub update_gateway_status_with_usage : Host → EgressGateway → Exec S EgressGateway
  update_gateway_status_with_usage h gateway = elim (count_gateway_ip h gateway) [
    | ok usage ↦
        let g = record gateway { status = record (gateway.status) { ip_usage = usage } } in
        cli.update_gateway_status g >>> λ _. pure g
    | err e ↦ lift (err (Error.message "failed to calculate gateway ip usage"))
    | panic ↦ lift panic
    | no_fuel ↦ lift no_fuel
  ]

  -- the body of the loops over policies: a policy of a namespace, or a cluster policy
  unfoldable pub sync_policy : (EgressPolicy → AssignedIp) → Policy → Exec S (Unit {0})
  unfolding update_egress_policy_status_if_need update_egress_cluster_policy_status_if_need
  sync_policy assigned p =
      if not (p.namespace == "")
      then (cli.get_policy p.namespace p.name >>> λ policy.
          update_egress_policy_status_if_need policy (assigned policy))
      else (cli.get_cluster_policy p.namespace p.name >>> λ policy.
          update_egress_cluster_policy_status_if_need policy (assigned policy))

  abbrev pub assigned_of : EgressIpStatus → Eips → AssignedIp
  assigned_of node eip = record {
    node = node.name;
    ipv4 = eip.ipv4;
    ipv6 = eip.ipv6;
    use_node_ip = eip.ipv4 == "" && eip.ipv6 == "";
  }

  -- updateAllPolicyStatus
  unfoldable pub update_all_policy_status : EgressGateway → Exec S (Unit {0})
  unfolding sync_policy each
  update_all_policy_status egw =
      each
        (λ node.
          each (λ eip. each (sync_policy (λ _. assigned_of node eip)) eip.policies) node.eips)
        egw.status.node_list

  -- cleanPolicyStatus
  unfoldable pub clean_policy_status : List Eips → Exec S (Unit {0})
  unfolding sync_policy each
  clean_policy_status eips =
      each
        (λ eip.
          each
            (sync_policy (λ policy. record {
              node = "";
              ipv4 = "";
              ipv6 = "";
              use_node_ip = policy.spec.egress_ip.use_node_ip;
            }))
            eip.policies)
        eips
