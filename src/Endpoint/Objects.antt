-- ===== src/Endpoint/Objects.antt =====
-- pkg/k8s/apis/v1beta1/egressendpointslice_types.go, the other objects that the endpoint
-- controllers of pkg/controller/endpoint read, and the client they call.
use egressgateway.Prelude.{ℕ, String, Bool, List, Option, Result}
use egressgateway.Api.{ObjectMeta, LabelSelector}
use egressgateway.Controller.Flow.{Exec}

pub record EgressEndpoint : Type 0 where
  pub namespace : String
  pub pod : String
  pub ipv4 : List String
  pub ipv6 : List String
  pub node : String

-- metav1.OwnerReference as NewControllerRef makes it
pub record OwnerReference : Type 0 where
  pub kind : String
  pub name : String

-- EgressEndpointSlice, and EgressClusterEndpointSlice, whose fields are the same; the name that a
-- slice asks for before it has one stands beside its meta data, and so do its owners
pub record EgressEndpointSlice : Type 0 where
  pub meta : ObjectMeta
  pub generate_name : String
  pub owners : List OwnerReference
  pub endpoints : List EgressEndpoint

-- corev1.Pod: its addresses, and the name of its node
pub record Pod : Type 0 where
  pub meta : ObjectMeta
  pub pod_ips : List String
  pub node_name : String

-- corev1.Namespace
pub record Namespace : Type 0 where
  pub meta : ObjectMeta

-- EgressPolicy and EgressClusterPolicy with their Spec.AppliedTo
pub record AppliedPolicy : Type 0 where
  pub meta : ObjectMeta
  pub pod_selector : Option LabelSelector
  pub namespace_selector : Option LabelSelector

abbrev pub Labels : Type 0
Labels = List (String × String)

-- client.Client, as far as these controllers call it: an instance for policies and their slices,
-- and one for cluster policies and theirs. A list takes a namespace, which is empty for all of
-- them, and the selector's test of the labels.
pub record EndpointClient (S : Type 0) : Type 0 where
  -- by namespace and name
  pub get_policy : String → String → Exec S AppliedPolicy
  pub list_policies : Exec S (List AppliedPolicy)
  pub list_pods : String → (Labels → Bool) → Exec S (List Pod)
  pub list_namespaces : String → (Labels → Bool) → Exec S (List Namespace)
  pub get_namespace : String → Exec S Namespace
  pub list_slices : String → (Labels → Bool) → Exec S (List EgressEndpointSlice)
  pub update_slice : EgressEndpointSlice → Exec S (Unit {0})
  pub create_slice : EgressEndpointSlice → Exec S (Unit {0})
  pub delete_slice : EgressEndpointSlice → Exec S (Unit {0})

-- what else the controllers call or read: LabelSelectorAsSelector of metav1 with Matches of what
-- it returns, NameIsDNSSubdomain of the validation package for a prefix, and the configuration
pub record EndpointConfig : Type 0 where
  pub as_selector : Option LabelSelector → Result (Labels → Bool)
  pub is_dns_subdomain : String → Bool
  pub max_number_endpoint_per_slice : ℕ
