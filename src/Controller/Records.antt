-- ===== src/Controller/Records.antt =====
-- Proofs on the reconcile of a policy that is there (pkg/egressgateway/egress_gateway.go).
use egressgateway.Prelude.{
  not_enough_ip, if◌then◌else◌, Error, String, ◌≡◌, refl, ap, sym, ◌∙◌, Bool, true, false, Option,
  none, some, ◌⊎◌, inl, inr, Result, ok, err, panic, no_fuel, Option-cases,
}
use egressgateway.Api.{IpUsage, EgressGateway, EgressPolicy}
use egressgateway.Ip.Text.{Host}
use egressgateway.Gateway.Lookup.{AssignedIp, get_assigned_ip}
use egressgateway.Gateway.Nodes.{Request}
use egressgateway.Gateway.Assign.{assign_ip, default_node}
use egressgateway.Gateway.Recorded.{as_read, wants_default, get_assigned_ip-assign_ip}
use egressgateway.Gateway.Usage.{count_gateway_ip}
use egressgateway.Controller.Flow.{
  Exec, M, Flow, next, return, panicked, out_of_fuel, flow_after, checked, or_fail, lift, after,
  ◌>>=◌, ◌>>◌, pure, go_on, fail,
}
use egressgateway.Controller.Client.{Client}
use egressgateway.Controller.Status.{update_gateway_status_with_usage}
use egressgateway.Controller.Policy.{assign_and_update}

module _ {S : Type 0} where
  flow_after-next :
      {A B : Type 0} (q : Flow A × S) (f : A → M S B) (b : B) (s' : S)
      → flow_after q f ≡ (next b, s')
      → (a : A) × (s1 : S) × (q ≡ (next a, s1)) × (f a s1 ≡ (next b, s'))
  flow_after-next (next a, s) f b s' h = (a, s, refl, h)
  flow_after-next (return o, s) f b s' h = cc
  flow_after-next (panicked, s) f b s' h = cc
  flow_after-next (out_of_fuel, s) f b s' h = cc

  checked-next :
      {A : Type 0} (requeue : Bool) (q : Result A × S) (a : A) (s' : S)
      → checked requeue q ≡ (next a, s')
      → q ≡ (ok a, s')
  checked-next requeue (ok a, s) b s' h = cc
  checked-next requeue (err e, s) b s' h = cc
  checked-next requeue (panic, s) b s' h = cc
  checked-next requeue (no_fuel, s) b s' h = cc

  after-ok :
      {A B : Type 0} (q : Result A × S) (f : A → Exec S B) (b : B) (s' : S)
      → after q f ≡ (ok b, s')
      → (a : A) × (s1 : S) × (q ≡ (ok a, s1)) × (f a s1 ≡ (ok b, s'))
  after-ok (ok a, s) f b s' h = (a, s, refl, h)
  after-ok (err e, s) f b s' h = cc
  after-ok (panic, s) f b s' h = cc
  after-ok (no_fuel, s) f b s' h = cc

module _ {S : Type 0} (client cli : Client S) (h : Host) (ns name : String) where
  abbrev with_usage : EgressGateway → IpUsage → EgressGateway
  with_usage g usage = record g { status = record (g.status) { ip_usage = usage } }

  written-eq :
      (usage : IpUsage) (g : EgressGateway) (s : S)
      → count_gateway_ip h g ≡ ok usage
      → update_gateway_status_with_usage client h g s
        ≡ after
            (client.update_gateway_status (with_usage g usage) s)
            (λ _. pure (with_usage g usage))
  unfolding update_gateway_status_with_usage
  written-eq usage g s c = rw (update_gateway_status_with_usage, c)

  -- writing a gateway keeps what it holds
  written :
      (u : Result IpUsage) (g g' : EgressGateway) (s s' : S)
      → count_gateway_ip h g ≡ u
      → update_gateway_status_with_usage client h g s ≡ (ok g', s')
      → get_assigned_ip g' ns name ≡ get_assigned_ip g ns name
  unfolding update_gateway_status_with_usage get_assigned_ip
  written (ok usage) g g' s s' c e =
      let (_, s1, u, p) =
        after-ok (client.update_gateway_status (with_usage g usage) s)
          (λ _. pure (with_usage g usage)) g' s' (sym (written-eq usage g s c) ∙ e) in
      let same : with_usage g usage ≡ g' = cc in
      ap (λ (x : EgressGateway). get_assigned_ip x ns name) (sym same)
  written (err x) g g' s s' c e =
      let stopped : update_gateway_status_with_usage client h g s
          ≡ (err (Error.message "failed to calculate gateway ip usage"), s) =
        rw (update_gateway_status_with_usage, c) in
      cc
  written panic g g' s s' c e =
      let stopped : update_gateway_status_with_usage client h g s ≡ (panic, s) =
        rw (update_gateway_status_with_usage, c) in
      cc
  written no_fuel g g' s s' c e =
      let stopped : update_gateway_status_with_usage client h g s ≡ (no_fuel, s) =
        rw (update_gateway_status_with_usage, c) in
      cc

  -- a flow that goes on with the gateway after the policy's status is written
  finish :
      (m : Exec S (Unit {0})) (g1 g : EgressGateway) (s s' : S)
      → (or_fail true m >> go_on g1) s ≡ (next g, s')
      → g1 ≡ g
  finish m g1 g s s' e =
      let (u, s1, _, k) = flow_after-next (or_fail true m s) (λ _. go_on g1) g s' e in cc

  abbrev write_gateway : Bool → EgressGateway → M S EgressGateway
  write_gateway write g =
      if write then or_fail true (update_gateway_status_with_usage client h g) else go_on g

  write_gateway-next :
      (write : Bool) (g1 g : EgressGateway) (s s' : S)
      → write_gateway write g1 s ≡ (next g, s')
      → get_assigned_ip g ns name ≡ get_assigned_ip g1 ns name
  write_gateway-next true g1 g s s' e =
      let e' = checked-next true (update_gateway_status_with_usage client h g1 s) g s' e in
      written (count_gateway_ip h g1) g1 g s s' refl e'
  write_gateway-next false g1 g s s' e =
      let same : g1 ≡ g = cc in ap (λ (x : EgressGateway). get_assigned_ip x ns name) (sym same)

  -- what follows assignIP
  abbrev assigned_flow :
      (AssignedIp → Exec S (Unit {0}))
      → Bool
      → Option AssignedIp × EgressGateway
      → M S EgressGateway
  assigned_flow update write r = elim r.0 [
    | none ↦ fail true not_enough_ip
    | some a ↦
        (if write then or_fail true (update_gateway_status_with_usage client h r.1) else go_on r.1)
        >>= λ x. or_fail true (update a) >> go_on x
  ]

  assigned_next :
      (update : AssignedIp → Exec S (Unit {0})) (write : Bool) (r : Option AssignedIp)
      (g1 g : EgressGateway) (s s' : S)
      → assigned_flow update write (r, g1) s ≡ (next g, s')
      → (a : AssignedIp) × (r ≡ some a) × (get_assigned_ip g ns name ≡ get_assigned_ip g1 ns name)
  assigned_next update write none g1 g s s' e = cc
  assigned_next update write (some a) g1 g s s' e =
      let (g2, s2, w, k) =
        flow_after-next (write_gateway write g1 s) (λ x. or_fail true (update a) >> go_on x) g s'
          e in
      let same = finish (update a) g2 g s2 s' k in
      (
        a,
        refl,
        ap (λ (x : EgressGateway). get_assigned_ip x ns name) (sym same)
            ∙ write_gateway-next write g1 g2 s s2 w,
      )

module _ {S : Type 0} (client cli : Client S) (h : Host)
    (update : EgressPolicy → AssignedIp → Exec S (Unit {0})) (write : Bool) (req : Request)
    (gateway : EgressGateway) (policy : EgressPolicy) where
  old-eq :
      (a : AssignedIp) (s : S)
      → get_assigned_ip gateway req.namespace req.name ≡ some a
      → assign_and_update client cli h update write req gateway policy s
        ≡ (or_fail true (update policy a) >> go_on gateway) s
  unfolding assign_and_update
  old-eq a s e = rw (assign_and_update, e)

  new-eq :
      (s : S)
      → get_assigned_ip gateway req.namespace req.name ≡ none
      → assign_and_update client cli h update write req gateway policy s
        ≡ (or_fail true (lift (assign_ip h gateway req policy.spec.egress_ip))
              >>= assigned_flow client cli h req.namespace req.name (update policy) write)
            s
  unfolding assign_and_update
  new-eq s e = rw (assign_and_update, e)

  -- When the reconcile of a policy that is there goes on past the assignment, the gateway that it
  -- goes on with holds the policy: what it held before, or else what assignIP assigned. The
  -- condition excludes a policy that takes the default EIP while some node already has that EIP.
  pub assign_and_update-records :
      (g : EgressGateway) (s s' : S)
      → (wants_default policy.spec.egress_ip ≡ false)
        ⊎ (default_node gateway gateway.status.node_list ≡ none)
      → assign_and_update client cli h update write req gateway policy s ≡ (next g, s')
      → (a : AssignedIp) × (get_assigned_ip g req.namespace req.name ≡ some a)
        × ((get_assigned_ip gateway req.namespace req.name ≡ some a)
            ⊎ ((b : AssignedIp) × (g1 : EgressGateway) × (a ≡ as_read b)
                × (assign_ip h gateway req policy.spec.egress_ip ≡ ok (some b, g1))))
  assign_and_update-records g s s' c e =
      elim (Option-cases (get_assigned_ip gateway req.namespace req.name)) [
        | inr (a, held) ↦
            let same =
              finish client cli h req.namespace req.name (update policy a) gateway g s s'
                (sym (old-eq a s held) ∙ e) in
            (
              a,
              ap (λ (x : EgressGateway). get_assigned_ip x req.namespace req.name) (sym same)
                  ∙ held,
              inl held,
            )
        | inl absent ↦
            let spec = policy.spec.egress_ip in
            let (r, s1, called, k) =
              flow_after-next (or_fail true (lift (assign_ip h gateway req spec)) s)
                (assigned_flow client cli h req.namespace req.name (update policy) write) g s'
                (sym (new-eq s absent) ∙ e) in
            let (b, some_b, kept) =
              assigned_next client cli h req.namespace req.name (update policy) write r.0 r.1 g s1
                s' k in
            let result = checked-next true (assign_ip h gateway req spec, s) r s1 called in
            let assigned : assign_ip h gateway req spec ≡ ok (some b, r.1) =
              ap (λ (q : Result (Option AssignedIp × EgressGateway) × S). q.0) result
              ∙ ap (λ (o : Option AssignedIp). ok (o, r.1)) some_b in
            let there = get_assigned_ip-assign_ip h gateway req spec b r.1 absent c assigned in
            (as_read b, kept ∙ there, inr (b, r.1, refl, assigned))
      ]
