-- ===== src/Agent/ClusterSets.antt =====
-- Proofs on reconcileClusterInfo of pkg/agent/police.go: what its sets hold.
use egressgateway.Prelude.{
  String, Bool, true, false, ◌==◌, if◌then◌else◌, List, Result, ok, err, panic, no_fuel, ◌≡◌, refl,
  sym, ap, ◌∙◌, arith,
}
use egressgateway.Ip.Range.{has_mark}
use egressgateway.Gateway.Nodes.{Request}
use egressgateway.Controller.Flow.{flow_after, checked, M, stop, or_fail, ◌>>=◌}
use egressgateway.ClusterInfo.Objects.{EgressClusterInfo}
use egressgateway.Agent.Rules.{egress_cluster_cidr_ipv4, egress_cluster_cidr_ipv6}
use egressgateway.Agent.ClusterCidrs.{
  ensure_cluster_info_ip_set, cluster_lists, cluster_set_v4, cluster_set_v6, process, sync_info,
  reconcile_cluster_info,
}
use egressgateway.Agent.Held.{IsIpset, Formed, after-ok}
use egressgateway.Agent.Exact.{process-exact}
use egressgateway.Agent.World.{Env}

-- a reconcile that stops without an error has got past each call
checked-stop :
    {S A : Type 0} (requeue : Bool) (r : Result A × S) (f : A → M S (Unit {0})) (s' : S)
    → flow_after (checked requeue r) f ≡ stop false s'
    → (a : A) × (s : S) × (r ≡ (ok a, s)) × (f a s ≡ stop false s')
checked-stop requeue (ok a, s) f s' h = (a, s, refl, h)
checked-stop requeue (err e, s) f s' h = absurd (ground (arith, h))
checked-stop requeue (panic, s) f s' h = absurd (ground (arith, h))
checked-stop requeue (no_fuel, s) f s' h = absurd (ground (arith, h))

module _ {S : Type 0} (env : Env S) (sets : IsIpset env.ipset) where
  ensure-holds :
      (s s' : S)
      → ensure_cluster_info_ip_set env s ≡ (ok tt, s')
      → (n x : String) → sets.holds n x s' ≡ sets.holds n x s
  unfolding ensure_cluster_info_ip_set
  ensure-holds s s' h n x =
      let (u, mid, first, later) =
        after-ok (env.ipset.create_set cluster_set_v4 s) (λ _. env.ipset.create_set cluster_set_v6)
          h in
      sets.created cluster_set_v6 mid s' later n x ∙ sets.created cluster_set_v4 s mid first n x

  -- what the calls of a reconcile leave
  calls-exact :
      (lists : List String × List String) (s s1 s2 s3 s4 s5 : S) (got_v4 got_v6 : List String)
      → Formed sets.form lists.0
      → Formed sets.form lists.1
      → ensure_cluster_info_ip_set env s ≡ (ok tt, s1)
      → env.ipset.list_entries egress_cluster_cidr_ipv4 s1 ≡ (ok got_v4, s2)
      → env.ipset.list_entries egress_cluster_cidr_ipv6 s2 ≡ (ok got_v6, s3)
      → process env cluster_set_v4 got_v4 lists.0 s3 ≡ (ok tt, s4)
      → process env cluster_set_v6 got_v6 lists.1 s4 ≡ (ok tt, s5)
      → (n x : String)
      → sets.holds n x s5 ≡ (
          if n == egress_cluster_cidr_ipv6
          then has_mark x lists.1
          else if n == egress_cluster_cidr_ipv4
          then has_mark x lists.0
          else sets.holds n x s)
  calls-exact lists s s1 s2 s3 s4 s5 got_v4 got_v6 f4 f6 e1 e2 e3 e4 e5 n x =
      let (same2, held4) = sets.listed egress_cluster_cidr_ipv4 s1 s2 got_v4 e2 in
      let (same3, held6) = sets.listed egress_cluster_cidr_ipv6 s2 s3 got_v6 e3 in
      let from_s3 : (m y : String) → sets.holds m y s3 ≡ sets.holds m y s =
        λ m y. ap (sets.holds m y) (same3 ∙ same2) ∙ ensure-holds s s1 e1 m y in
      let v4_done =
        process-exact env sets cluster_set_v4 got_v4 lists.0 s3 s4
          (λ y. held4 y ∙ ap (sets.holds egress_cluster_cidr_ipv4 y) (sym (same3 ∙ same2))) e4 f4 in
      let v6_done =
        process-exact env sets cluster_set_v6 got_v6 lists.1 s4 s5
          (λ y.
            held6 y
            ∙ ap (sets.holds egress_cluster_cidr_ipv6 y) (sym same3)
            ∙ sym (v4_done egress_cluster_cidr_ipv6 y))
          e5 f6 in
      ground (arith, v6_done n x, v4_done n x, from_s3 n x)

  -- the two last calls, and the three first ones
  last_calls : List String × List String → List String → List String → M S (Unit {0})
  last_calls lists got_v4 got_v6 = or_fail true (process env cluster_set_v4 got_v4 lists.0) >>= λ _.
      or_fail true (process env cluster_set_v6 got_v6 lists.1) >>= λ _. stop false

  last_calls-stop :
      (lists : List String × List String) (got_v4 got_v6 : List String) (s3 s' : S)
      → last_calls lists got_v4 got_v6 s3 ≡ stop false s'
      → (s4 : S) × (process env cluster_set_v4 got_v4 lists.0 s3 ≡ (ok tt, s4))
        × (process env cluster_set_v6 got_v6 lists.1 s4 ≡ (ok tt, s'))
  unfolding last_calls
  last_calls-stop lists got_v4 got_v6 s3 s' h =
      let (u, s4, e4, h4) =
        checked-stop true (process env cluster_set_v4 got_v4 lists.0 s3) _ s' h in
      let (v, s5, e5, h5) =
        checked-stop true (process env cluster_set_v6 got_v6 lists.1 s4) (λ _. stop false) s' h4 in
      (s4, e4, e5 ∙ ap (λ r. (ok tt, r.1)) h5)

  first_calls-stop :
      (info : EgressClusterInfo) (s s' : S)
      → sync_info env info s ≡ stop false s'
      → (s1 s2 s3 : S) × (got_v4 got_v6 : List String) × (ensure_cluster_info_ip_set env s
          ≡ (ok tt, s1))
        × (env.ipset.list_entries egress_cluster_cidr_ipv4 s1 ≡ (ok got_v4, s2))
        × (env.ipset.list_entries egress_cluster_cidr_ipv6 s2 ≡ (ok got_v6, s3))
        × (last_calls (cluster_lists env info.status) got_v4 got_v6 s3 ≡ stop false s')
  unfolding last_calls
  first_calls-stop info s s' h =
      let (u, s1, e1, h1) = checked-stop false (ensure_cluster_info_ip_set env s) _ s' h in
      let (got_v4, s2, e2, h2) =
        checked-stop false (env.ipset.list_entries egress_cluster_cidr_ipv4 s1) _ s' h1 in
      let (got_v6, s3, e3, h3) =
        checked-stop false (env.ipset.list_entries egress_cluster_cidr_ipv6 s2) _ s' h2 in
      (s1, s2, s3, got_v4, got_v6, e1, e2, e3, h3)

  -- When reconcileClusterInfo of a cluster info that is there ends without an error, and the texts
  -- that it lists are in the form in which ipset lists them, its two sets hold these and no others,
  -- and other sets are as they were.
  pub reconcile_cluster_info-exact :
      (info : EgressClusterInfo) (req : Request) (s s' : S)
      → env.client.get_info req.name s ≡ (ok info, s)
      → info.meta.deleting ≡ false
      → Formed sets.form (cluster_lists env info.status).0
      → Formed sets.form (cluster_lists env info.status).1
      → reconcile_cluster_info env req s ≡ stop false s'
      → (n x : String)
      → sets.holds n x s' ≡ (
          if n == egress_cluster_cidr_ipv6
          then has_mark x (cluster_lists env info.status).1
          else if n == egress_cluster_cidr_ipv4
          then has_mark x (cluster_lists env info.status).0
          else sets.holds n x s)
  unfolding reconcile_cluster_info
  reconcile_cluster_info-exact info req s s' read live f4 f6 h n x =
      let lists = cluster_lists env info.status in
      let run : sync_info env info s ≡ stop false s' = rw (read, live) at h in
      let (s1, s2, s3, got_v4, got_v6, e1, e2, e3, h3) = first_calls-stop info s s' run in
      let (s4, e4, e5) = last_calls-stop lists got_v4 got_v6 s3 s' h3 in
      calls-exact lists s s1 s2 s3 s4 s' got_v4 got_v6 f4 f6 e1 e2 e3 e4 e5 n x
