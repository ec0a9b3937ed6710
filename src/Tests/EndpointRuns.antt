-- ===== src/Tests/EndpointRuns.antt =====
-- The theorems on endpoint slices, at two slices of at most two endpoints.
use egressgateway.Prelude.{
  inl, inr, refl, true, false, ok, err, not_found, String, List, [], ◌∷◌, ℕ, ◌≡◌, length, All, ◌+◌,
  suc, map, arith, if◌then◌else◌, ltb,
}
use egressgateway.Tests.Texts.{tally_host}
use egressgateway.Ip.Text.{NetText}
use egressgateway.Endpoint.Objects.{
  EgressEndpointSlice, EndpointClient, EndpointConfig, Pod, EgressEndpoint,
}
use egressgateway.Endpoint.Tally.{tally_slices, tally, is_there, addressed}
use egressgateway.Endpoint.Pods.{find_pod, has_key, ips_v4, new_endpoint, ips_v6, endpoint_key}
use egressgateway.Endpoint.Chunks.{all_endpoints, Filled, plan-Filled, create_slices_lem}
use egressgateway.Endpoint.Sync.{sync_slices}
use egressgateway.Api.{ObjectMeta}
use egressgateway.Endpoint.Slices.{create_slices, plan}
use egressgateway.Endpoint.Idle.{sync_slices-idle, Listed, Agrees}
use egressgateway.Endpoint.Fill.{Fits}
use egressgateway.Endpoint.Shares.{untouched, plan-tally}
use egressgateway.Prelude.Sort.{sort_strings}

abbrev pub text : NetText
text = tally_host.text

abbrev pub named : String → String → ObjectMeta
named namespace name = record {
  name = name;
  namespace = namespace;
  labels = [];
  finalizers = [];
  deleting = false;
}

abbrev pod_of : String → List String → Pod
pod_of name ips = record { meta = named "ns" name; pod_ips = ips; node_name = "n1" }

abbrev endpoint_of : String → List String → EgressEndpoint
endpoint_of name ips = record { namespace = "ns"; pod = name; ipv4 = ips; ipv6 = []; node = "n1" }

abbrev pub slice_with : String → List EgressEndpoint → EgressEndpointSlice
slice_with name endpoints = record {
  meta = named "ns" name;
  generate_name = "";
  owners = [];
  endpoints = endpoints;
}

abbrev blank : EgressEndpointSlice
blank = slice_with "" []

-- p1 and p2 are listed, p3 and p4 are new, and gone is no more
abbrev pods : List Pod
pods =
    pod_of "p1" ("a" ∷ [])
    ∷ pod_of "p2" ("aa" ∷ [])
    ∷ pod_of "p3" ("b" ∷ "a" ∷ [])
    ∷ pod_of "p4" ("c" ∷ [])
    ∷ pod_of "p5" []
    ∷ []

abbrev slices : List EgressEndpointSlice
slices =
    slice_with "s1" (endpoint_of "p1" ("a" ∷ []) ∷ endpoint_of "gone" ("b" ∷ []) ∷ [])
    ∷ slice_with "s2" (endpoint_of "p2" ("aa" ∷ []) ∷ [])
    ∷ []

plan-Filled_example :
    (creates : List EgressEndpointSlice) × (create_slices
        (length (plan text 2 pods slices).1)
        2
        blank
        (plan text 2 pods slices).1
      ≡ ok creates)
    × (all_endpoints creates ≡ (plan text 2 pods slices).1)
    × All (Fits 2) (plan text 2 pods slices).0
    × All (Filled 2) creates
plan-Filled_example =
    plan-Filled 2 (omega arith) blank refl text pods slices (omega arith, (omega arith, tt))

create_slices_lem_example :
    (made : List EgressEndpointSlice) × (create_slices 3 2 blank
        (endpoint_of "p1" [] ∷ endpoint_of "p2" [] ∷ endpoint_of "p3" [] ∷ [])
      ≡ ok made)
    × (all_endpoints made ≡ endpoint_of "p1" [] ∷ endpoint_of "p2" [] ∷ endpoint_of "p3" [] ∷ [])
    × All (Filled 2) made
create_slices_lem_example =
    create_slices_lem 2 (omega arith) blank refl 3
      (endpoint_of "p1" [] ∷ endpoint_of "p2" [] ∷ endpoint_of "p3" [] ∷ []) (omega arith)

plan-tally_example :
    tally_slices ("ns", "p3") (plan text 2 pods slices).0
      + tally ("ns", "p3") (plan text 2 pods slices).1
      + tally_slices ("ns", "p3") (untouched text 2 pods slices)
    ≡ (if is_there (find_pod ("ns", "p3") pods)
        then if ltb 0 (tally_slices ("ns", "p3") slices)
          then tally_slices ("ns", "p3") slices
          else addressed ("ns", "p3") text pods
        else 0)
plan-tally_example = plan-tally ("ns", "p3") text 2 pods slices

-- a server that counts the calls
abbrev counting : EndpointClient ℕ
counting = record {
  get_policy = λ ns name s. (err not_found, s);
  list_policies = λ s. (ok [], s);
  list_pods = λ ns f s. (ok pods, s);
  list_namespaces = λ ns f s. (ok [], s);
  get_namespace = λ name s. (err not_found, s);
  list_slices = λ ns f s. (ok slices, s);
  update_slice = λ x s. (ok tt, suc s);
  create_slice = λ x s. (ok tt, suc s);
  delete_slice = λ x s. (ok tt, suc s);
}

abbrev config : EndpointConfig
config = record {
  as_selector = λ o. ok (λ labels. true);
  is_dns_subdomain = λ s. true;
  max_number_endpoint_per_slice = 2;
}

abbrev settled : List EgressEndpointSlice
settled = slice_with "s1" (endpoint_of "p1" ("a" ∷ []) ∷ []) ∷ []

abbrev settled_pods : List Pod
settled_pods = pod_of "p1" ("a" ∷ []) ∷ pod_of "p5" [] ∷ []

settled-Agrees : All (Agrees text settled_pods) (all_endpoints settled)
unfolding all_endpoints find_pod ips_v4 ips_v6 sort_strings
settled-Agrees = ((pod_of "p1" ("a" ∷ []), refl, refl), tt)

settled-Listed : All (Listed text (map endpoint_key (all_endpoints settled))) settled_pods
unfolding all_endpoints has_key new_endpoint ips_v4 ips_v6
settled-Listed = (inl refl, (inr refl, tt))

sync_slices-idle_example :
    sync_slices counting config text blank settled_pods settled 0 ≡ (ok [], 0)
sync_slices-idle_example =
    sync_slices-idle counting config text blank settled_pods settled 0 settled-Agrees settled-Listed
