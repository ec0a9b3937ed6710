-- ===== src/Webhook/SameVerdict.antt =====
-- Proofs on validateEgressPolicy and validateEgressClusterPolicy of pkg/controller/webhook/validate.go:
-- they repeat the same checks.
use egressgateway.Prelude.{
  ok, err, panic, no_fuel, true, false, none, some, refl, Option, List, String, Bool, ◌≡◌, [], not,
  arith, ap, ◌∙◌, if◌then◌else◌, Result, Error, ◌||◌,
}
use egressgateway.Api.{LabelSelector, EgressPolicySpec}
use egressgateway.Ip.Text.{Host}
use egressgateway.Controller.Flow.{Exec, after, pure}
use egressgateway.Webhook.Requests.{
  Operation, WebhookClient, WebhookConfig, is_delete, is_create, prefixed,
}
use egressgateway.Webhook.GatewayChecks.{is_none_of}
use egressgateway.Webhook.PolicyChecks.{
  PolicyObject, check_spec, check_applied, check_immutable, check_create, check_changes, check_eip,
  check_egw_ippools, validate_egress_policy,
}
use egressgateway.Webhook.ClusterChecks.{
  ClusterPolicyObject, has_subnet, is_missing, check_cluster_spec, check_cluster_applied,
  check_cluster_immutable, check_cluster_create, check_cluster_changes,
  validate_egress_cluster_policy,
}
use egressgateway.Webhook.Accepted.{request}

-- the subnets of a cluster policy, none where there is no list
abbrev pub subnets : Option (List String) → List String
subnets none = []
subnets (some xs) = xs

-- a cluster policy as a policy
abbrev pub as_policy : ClusterPolicyObject → PolicyObject
as_policy p = record {
  meta = p.meta;
  spec = p.spec;
  pod_selector = p.pod_selector;
  pod_subnet = subnets p.pod_subnet;
  dest_subnet = p.dest_subnet;
}

has_subnet-subnets : (o : Option (List String)) → has_subnet o ≡ not (is_none_of (subnets o))
has_subnet-subnets none = refl
has_subnet-subnets (some xs) = refl

is_missing-subnets : (o : Option (List String)) → is_missing o ≡ is_none_of (subnets o)
is_missing-subnets none = refl
is_missing-subnets (some xs) = refl

-- a result without the text of its error, and a run with the state it leaves
abbrev pub answer : {A : Type 0} → Result A → Result A
answer (ok a) = ok a
answer (err e) = err (Error.message "")
answer panic = panic
answer no_fuel = no_fuel

abbrev pub verdict : {S A : Type 0} → Result A × S → Result A × S
verdict (r, s) = (answer r, s)

after-verdict :
    {S A B : Type 0} (q q' : Result A × S) (f g : A → Exec S B)
    → verdict q ≡ verdict q'
    → ((a : A) (s : S) → verdict (f a s) ≡ verdict (g a s))
    → verdict (after q f) ≡ verdict (after q' g)
after-verdict (ok a, s) (ok b, t) f g e k = k a s ∙ ap (λ p. verdict (after p g)) e
after-verdict (err x, s) (err y, t) f g e k = ap (λ p. (err (Error.message ""), p.1)) e
after-verdict (panic, s) (panic, t) f g e k = ap (λ p. (panic, p.1)) e
after-verdict (no_fuel, s) (no_fuel, t) f g e k = ap (λ p. (no_fuel, p.1)) e
after-verdict (ok a, s) (err y, t) f g e k = absurd (ground (arith, ap (λ p. p.0) e))
after-verdict (ok a, s) (panic, t) f g e k = absurd (ground (arith, e))
after-verdict (ok a, s) (no_fuel, t) f g e k = absurd (ground (arith, e))
after-verdict (err x, s) (ok b, t) f g e k = absurd (ground (arith, e))
after-verdict (err x, s) (panic, t) f g e k = absurd (ground (arith, e))
after-verdict (err x, s) (no_fuel, t) f g e k = absurd (ground (arith, e))
after-verdict (panic, s) (ok b, t) f g e k = absurd (ground (arith, e))
after-verdict (panic, s) (err y, t) f g e k = absurd (ground (arith, e))
after-verdict (panic, s) (no_fuel, t) f g e k = absurd (ground (arith, e))
after-verdict (no_fuel, s) (ok b, t) f g e k = absurd (ground (arith, e))
after-verdict (no_fuel, s) (err y, t) f g e k = absurd (ground (arith, e))
after-verdict (no_fuel, s) (panic, t) f g e k = absurd (ground (arith, e))

prefixed-answer :
    {A : Type 0} (text text' : String) (r : Result A)
    → answer (prefixed text r) ≡ answer (prefixed text' r)
prefixed-answer text text' (ok a) = refl
prefixed-answer text text' (err e) = refl
prefixed-answer text text' panic = refl
prefixed-answer text text' no_fuel = refl

check_applied-answer :
    (selector : Option LabelSelector) (pod_subnet : Option (List String))
    → answer (check_cluster_applied selector pod_subnet)
      ≡ answer (check_applied selector (subnets pod_subnet))
check_applied-answer selector none = ground arith
check_applied-answer selector (some xs) = ground arith

-- a call that is made only where a condition holds, or only where it does not
module _ {S : Type 0} (f g : Exec S (Unit {0})) where
  if-verdict :
      (c : Bool)
      → ((s : S) → verdict (f s) ≡ verdict (g s))
      → (s : S) → verdict ((if c then f else pure tt) s) ≡ verdict ((if c then g else pure tt) s)
  if-verdict true k s = k s
  if-verdict false k s = refl

  unless-verdict :
      (c : Bool)
      → ((s : S) → verdict (f s) ≡ verdict (g s))
      → (s : S) → verdict ((if c then pure tt else f) s) ≡ verdict ((if c then pure tt else g) s)
  unless-verdict true k s = refl
  unless-verdict false k s = k s

module _ {S : Type 0} (h : Host) (client : WebhookClient S) (cfg : WebhookConfig) where
  check_create-verdict :
      (name : String) (spec : EgressPolicySpec) (s : S)
      → verdict (check_cluster_create h client cfg name spec s)
        ≡ verdict (check_create h client cfg name spec s)
  unfolding check_cluster_create check_create
  check_create-verdict name spec s =
      let ip = spec.egress_ip in
      let gateway = spec.egress_gateway_name in
      after-verdict _ _ _ _
        (if-verdict _ _ (cfg.enable_ipv4 || cfg.enable_ipv6)
          (λ s1.
            after-verdict (check_eip h client cfg ip.ipv4 ip.ipv6 gateway s1)
              (check_eip h client cfg ip.ipv4 ip.ipv6 gateway s1) _ _ refl
              (λ u s2.
                unless-verdict _ _ ip.use_node_ip
                  (λ s3.
                    ap (λ r. (r, (check_egw_ippools h client cfg gateway s3).1))
                      (prefixed-answer _ _ (check_egw_ippools h client cfg gateway s3).0))
                  s2))
          s)
        (λ u s1. refl)

  check_changes-verdict :
      (operation : Operation) (p q : ClusterPolicyObject) (s : S)
      → verdict (check_cluster_changes h client cfg operation p (ok q) s)
        ≡ verdict (check_changes h client cfg operation (as_policy p) (ok (as_policy q)) s)
  unfolding check_cluster_changes check_changes check_cluster_immutable check_immutable
  check_changes-verdict operation p q s = after-verdict _ _ _ _ refl (λ u s1.
      after-verdict _ _ _ _
        (if-verdict _ _ (is_create operation) (check_create-verdict p.meta.name p.spec) s1)
        (λ v s2. refl))

  -- For a request whose objects are read, the webhook answers for a cluster policy what it answers
  -- for the policy with the same spec, selector and subnets, a missing list of subnets as an empty
  -- one, but for the text of a denial, and it leaves the server in the same state.
  pub validate_egress_cluster_policy_lem :
      (operation : Operation) (name : String) (p q : ClusterPolicyObject) (s : S)
      → verdict (validate_egress_cluster_policy h client cfg (request operation name p q) s)
        ≡ verdict (
            validate_egress_policy h client cfg
              (request operation name (as_policy p) (as_policy q))
              s)
  unfolding validate_egress_cluster_policy validate_egress_policy check_cluster_spec check_spec
  validate_egress_cluster_policy_lem operation name p q s =
      unless-verdict _ _ (is_delete operation)
        (λ s0.
          after-verdict (check_cluster_spec h p.spec, s0) (check_spec h p.spec, s0) _ _ refl
            (λ u s1.
              after-verdict (check_cluster_applied p.pod_selector p.pod_subnet, s1)
                (check_applied p.pod_selector (subnets p.pod_subnet), s1) _ _
                (ap (λ r. (r, s1)) (check_applied-answer p.pod_selector p.pod_subnet))
                (λ v s2. check_changes-verdict operation p q s2)))
        s
