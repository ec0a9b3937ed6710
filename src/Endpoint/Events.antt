-- ===== src/Endpoint/Events.antt =====
-- pkg/controller/endpoint: which events of pods and namespaces matter, and the requests that they
-- give (podPredicate, nsPredicate, enqueuePod, enqueueNS and enqueueEGCP).
use egressgateway.Prelude.{
  String, Bool, true, false, not, ◌&&◌, ◌==◌, nat_beq, if◌then◌else◌, List, [], ◌∷◌, none, some,
  length, Result, ok, err,
}
use egressgateway.Controller.Flow.{Exec, ◌>>>◌, pure, lift}
use egressgateway.Endpoint.Objects.{
  Pod, Namespace, AppliedPolicy, EndpointClient, EndpointConfig, Labels,
}
use egressgateway.Endpoint.Pods.{Key, slice_equal}

-- reflect.DeepEqual of two maps whose keys differ, whatever their order
unfoldable pub has_label : String → String → Labels → Bool
has_label key value [] = false
has_label key value (l ∷ ls) =
    let rest = has_label key value ls in if l.0 == key && l.1 == value then true else rest

unfoldable pub includes : Labels → Labels → Bool
unfolding has_label
includes ls [] = true
includes ls (k ∷ ks) = has_label k.0 k.1 ls && includes ls ks

unfoldable pub same_labels : Labels → Labels → Bool
unfolding includes
same_labels a b = nat_beq (length a) (length b) && includes a b

-- podPredicate; Delete and Generic are always true
unfoldable pub pod_created : Pod → Bool
pod_created pod = not (nat_beq (length pod.pod_ips) 0)

unfoldable pub pod_updated : Pod → Pod → Bool
unfolding same_labels
pod_updated old new = not (
    same_labels old.meta.labels new.meta.labels
    && (slice_equal old.pod_ips new.pod_ips && old.node_name == new.node_name))

-- nsPredicate; Create, Delete and Generic are always true
unfoldable pub ns_updated : Namespace → Namespace → Bool
unfolding same_labels
ns_updated old new = not (same_labels old.meta.labels new.meta.labels)

abbrev pub policy_key : AppliedPolicy → Key
policy_key policy = (policy.meta.namespace, policy.meta.name)

-- the requests, or nil on any error
abbrev pub or_nil : {S : Type 0} → Result (List Key) × S → Result (List Key) × S
or_nil (err e, s) = (ok [], s)
or_nil (r, s) = (r, s)

module _ {S : Type 0} (client : EndpointClient S) (cfg : EndpointConfig) where
  -- the loop of enqueuePod
  unfoldable pub matching_policies : Labels → List AppliedPolicy → Exec S (List Key)
  matching_policies labels [] = pure []
  matching_policies labels (policy ∷ policies) =
      lift (cfg.as_selector policy.pod_selector) >>> λ sel_pods.
      matching_policies labels policies >>> λ rest.
      pure (if sel_pods labels then policy_key policy ∷ rest else rest)

  -- enqueuePod
  unfoldable pub enqueue_pod : Pod → Exec S (List Key)
  unfolding matching_policies
  enqueue_pod pod s =
      or_nil ((client.list_policies >>> λ policies. matching_policies pod.meta.labels policies) s)

  -- the loop of enqueueNS
  unfoldable pub selecting_policies : Labels → List AppliedPolicy → Exec S (List Key)
  selecting_policies labels [] = pure []
  selecting_policies labels (policy ∷ policies) =
      lift (cfg.as_selector policy.namespace_selector) >>> λ sel_ns.
      selecting_policies labels policies >>> λ rest.
      pure (if sel_ns labels then policy_key policy ∷ rest else rest)

  -- enqueueNS
  unfoldable pub enqueue_ns : Namespace → Exec S (List Key)
  unfolding selecting_policies
  enqueue_ns ns s =
      or_nil ((client.list_policies >>> λ policies. selecting_policies ns.meta.labels policies) s)

  -- whether the namespace of a pod is one of a policy's
  abbrev pub in_namespaces : Pod → AppliedPolicy → Exec S Bool
  in_namespaces pod policy = elim policy.namespace_selector [
    | none ↦ pure true
    | some selector ↦ client.get_namespace pod.meta.namespace >>> λ ns.
        lift (cfg.as_selector (some selector)) >>> λ sel_ns. pure (sel_ns ns.meta.labels)
  ]

  -- the loop of enqueueEGCP
  unfoldable pub matching_cluster_policies : Pod → List AppliedPolicy → Exec S (List Key)
  matching_cluster_policies pod [] = pure []
  matching_cluster_policies pod (policy ∷ policies) =
      lift (cfg.as_selector policy.pod_selector) >>> λ sel_pods.
      (if sel_pods pod.meta.labels then in_namespaces pod policy else pure false) >>> λ match.
      matching_cluster_policies pod policies >>> λ rest.
      pure (if match then policy_key policy ∷ rest else rest)

  -- enqueueEGCP
  unfoldable pub enqueue_egcp : Pod → Exec S (List Key)
  unfolding matching_cluster_policies
  enqueue_egcp pod s = or_nil (
      (client.list_policies >>> λ policies.
      client.list_namespaces "" (λ labels. true) >>> λ ns_list.
      matching_cluster_policies pod policies)
        s)
