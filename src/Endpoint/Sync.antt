-- ===== src/Endpoint/Sync.antt =====
-- pkg/controller/endpoint/endpoint_slice.go and cluster_endpoint_slice.go: Reconcile and the lists
-- that it reads.
use Prim.Native.String.{◌++◌}
use egressgateway.Prelude.{
  String, false, if◌then◌else◌, List, [], ◌∷◌, Option, none, some, length, Result, ok, err, panic,
  no_fuel, Error,
}
use mathlib.Core.List as List
use egressgateway.Api.{LabelSelector}
use egressgateway.Ip.Text.{NetText}
use egressgateway.Controller.Flow.{Exec, ◌>>>◌, pure, lift, is_not_found}
use egressgateway.Endpoint.Objects.{
  EgressEndpointSlice, Pod, Namespace, AppliedPolicy, EndpointClient, EndpointConfig,
}
use egressgateway.Endpoint.Slices.{create_slices, plan}

-- LabelPolicyName
abbrev pub label_policy_name : String
label_policy_name = "spidernet.io/policy-name"

-- the slices without an endpoint, which are deleted, and the others, which are updated
unfoldable pub to_delete : List EgressEndpointSlice → List EgressEndpointSlice
to_delete [] = []
to_delete (slice ∷ slices) =
    let rest = to_delete slices in elim slice.endpoints [ [] ↦ slice ∷ rest | ep ∷ eps ↦ rest ]

unfoldable pub to_write : List EgressEndpointSlice → List EgressEndpointSlice
to_write [] = []
to_write (slice ∷ slices) =
    let rest = to_write slices in elim slice.endpoints [ [] ↦ rest | ep ∷ eps ↦ slice ∷ rest ]

module _ {S : Type 0} where
  -- errs = append(errs, fmt.Errorf("failed to … endpoint slice %v/%v: %v", …))
  abbrev pub with_error : Error → Result (List Error) × S → Result (List Error) × S
  with_error e (ok errs, s) = (ok (e ∷ errs), s)
  with_error e (r, s) = (r, s)

  abbrev pub written_one :
      String
      → EgressEndpointSlice
      → Result (Unit {0}) × S
      → Exec S (List Error)
      → Result (List Error) × S
  written_one what slice (ok u, s) rest = rest s
  written_one what slice (err e, s) rest =
      with_error (Error.message (what ++ slice.meta.namespace ++ "/" ++ slice.meta.name)) (rest s)
  written_one what slice (panic, s) rest = (panic, s)
  written_one what slice (no_fuel, s) rest = (no_fuel, s)

  -- a loop of writes, which goes on after an error; it gives the errors
  unfoldable pub write_each :
      (EgressEndpointSlice → Exec S (Unit {0}))
      → String
      → List EgressEndpointSlice
      → Exec S (List Error)
  write_each write what [] s = (ok [], s)
  write_each write what (slice ∷ slices) s =
      let rest = write_each write what slices in written_one what slice (write slice s) rest

-- getEndpointSlicePrefix
unfoldable pub get_endpoint_slice_prefix : EndpointConfig → String → String
get_endpoint_slice_prefix cfg name =
    let prefix = name ++ "-" in if cfg.is_dns_subdomain prefix then prefix else name

abbrev pub slice_of : EndpointConfig → String → AppliedPolicy → EgressEndpointSlice
slice_of cfg kind policy = record {
  meta = record {
    name = "";
    namespace = policy.meta.namespace;
    labels = (label_policy_name, policy.meta.name) ∷ [];
    finalizers = [];
    deleting = false;
  };
  generate_name = get_endpoint_slice_prefix cfg policy.meta.name;
  owners = record { kind = kind; name = policy.meta.name } ∷ [];
  endpoints = [];
}

-- newEndpointSlice
unfoldable pub new_endpoint_slice : EndpointConfig → AppliedPolicy → EgressEndpointSlice
new_endpoint_slice cfg policy = slice_of cfg "EgressPolicy" policy

-- newClusterEndpointSlice
unfoldable pub new_cluster_endpoint_slice : EndpointConfig → AppliedPolicy → EgressEndpointSlice
new_cluster_endpoint_slice cfg policy = slice_of cfg "EgressClusterPolicy" policy

module _ {S : Type 0} (client : EndpointClient S) (cfg : EndpointConfig) (t : NetText) where
  -- listPodsByPolicy
  unfoldable pub list_pods_by_policy : AppliedPolicy → Exec S (List Pod)
  list_pods_by_policy policy = lift (cfg.as_selector policy.pod_selector) >>> λ selector.
      client.list_pods policy.meta.namespace selector

  -- the pods of each namespace
  unfoldable pub pods_of_namespaces : AppliedPolicy → List Namespace → Exec S (List Pod)
  pods_of_namespaces policy [] = pure []
  pods_of_namespaces policy (ns ∷ rest) = lift (cfg.as_selector policy.pod_selector) >>> λ selector.
      client.list_pods ns.meta.name selector >>> λ pods.
      pods_of_namespaces policy rest >>> λ others. pure (List.◌++◌ pods others)

  -- listPodsByClusterPolicy
  unfoldable pub list_pods_by_cluster_policy : AppliedPolicy → Exec S (List Pod)
  unfolding pods_of_namespaces
  list_pods_by_cluster_policy policy = elim policy.namespace_selector [
    | none ↦ lift (cfg.as_selector policy.pod_selector) >>> λ selector. client.list_pods "" selector
    | some ns_selector ↦ lift (cfg.as_selector (some ns_selector)) >>> λ selector.
        client.list_namespaces policy.meta.namespace selector >>> λ ns_list.
        pods_of_namespaces policy ns_list
  ]

  abbrev pub policy_label : String → Option LabelSelector
  policy_label name =
      some (record { match_labels = (label_policy_name, name) ∷ []; match_expressions = [] })

  -- listEndpointSlices
  unfoldable pub list_endpoint_slices : String → String → Exec S (List EgressEndpointSlice)
  list_endpoint_slices namespace policy_name =
      lift (cfg.as_selector (policy_label policy_name)) >>> λ selector.
      client.list_slices namespace selector

  -- listClusterEndpointSlices
  unfoldable pub list_cluster_endpoint_slices : String → Exec S (List EgressEndpointSlice)
  list_cluster_endpoint_slices policy_name =
      lift (cfg.as_selector (policy_label policy_name)) >>> λ selector.
      client.list_slices "" selector

  -- the writes at the end of Reconcile; it gives the errors of which NewAggregate makes one
  unfoldable pub write_slices :
      List EgressEndpointSlice → List EgressEndpointSlice → Exec S (List Error)
  unfolding write_each to_write to_delete
  write_slices updates creates =
      write_each client.update_slice "failed to update endpoint slice " (to_write updates) >>> λ e1.
      write_each client.create_slice "failed to create endpoint slice " creates >>> λ e2.
      write_each client.delete_slice "failed to delete endpoint slice " (to_delete updates)
      >>> λ e3. pure (List.◌++◌ e1 (List.◌++◌ e2 e3))

  -- Reconcile from the lists of the pods and of the slices on; both files have the same code
  unfoldable pub sync_slices :
      EgressEndpointSlice → List Pod → List EgressEndpointSlice → Exec S (List Error)
  unfolding plan create_slices write_slices
  sync_slices new_slice pods slices =
      let max = cfg.max_number_endpoint_per_slice in
      let planned = plan t max pods slices in
      lift (create_slices (length planned.1) max new_slice planned.1) >>> λ creates.
      write_slices planned.0 creates

  -- `if err != nil { if !errors.IsNotFound(err) { return …, err }; deleted = true }`
  abbrev pub unless_deleted :
      Result AppliedPolicy × S → (AppliedPolicy → Exec S (List Error)) → Result (List Error) × S
  unless_deleted (ok policy, s) body = if policy.meta.deleting then (ok [], s) else body policy s
  unless_deleted (err e, s) body = if is_not_found e then (ok [], s) else (err e, s)
  unless_deleted (panic, s) body = (panic, s)
  unless_deleted (no_fuel, s) body = (no_fuel, s)

  -- Reconcile of endpointReconciler
  unfoldable pub reconcile_endpoint_slices : String → String → Exec S (List Error)
  unfolding list_pods_by_policy list_endpoint_slices sync_slices
  reconcile_endpoint_slices namespace name s =
      unless_deleted (client.get_policy namespace name s) (λ policy.
        list_pods_by_policy policy >>> λ pods.
        list_endpoint_slices policy.meta.namespace policy.meta.name >>> λ slices.
        sync_slices (new_endpoint_slice cfg policy) pods slices)

  -- Reconcile of endpointClusterReconciler
  unfoldable pub reconcile_cluster_endpoint_slices : String → String → Exec S (List Error)
  unfolding list_pods_by_cluster_policy list_cluster_endpoint_slices sync_slices
  reconcile_cluster_endpoint_slices namespace name s =
      unless_deleted (client.get_policy namespace name s) (λ policy.
        list_pods_by_cluster_policy policy >>> λ pods.
        list_cluster_endpoint_slices policy.meta.name >>> λ slices.
        sync_slices (new_cluster_endpoint_slice cfg policy) pods slices)
