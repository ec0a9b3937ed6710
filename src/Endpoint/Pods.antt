-- ===== src/Endpoint/Pods.antt =====
-- pkg/controller/endpoint/endpoint_slice.go: the endpoint of a pod (newEndpoint and
-- needUpdateEndpoint).
use egressgateway.Prelude.{
  String, Bool, true, false, not, ◌&&◌, ◌||◌, ◌==◌, nat_beq, if◌then◌else◌, List, [], ◌∷◌, Option,
  none, some, length,
}
use egressgateway.Prelude.Sort.{sort_strings}
use egressgateway.Ip.Address.{is_to4}
use egressgateway.Ip.Text.{NetText}
use egressgateway.Tunnel.Release.{is_to16}
use egressgateway.Endpoint.Objects.{EgressEndpoint, Pod}

-- a key of a map: types.NamespacedName, the namespace first
abbrev pub Key : Type 0
Key = String × String

abbrev pub key_eq : Key → Key → Bool
key_eq k l = k.0 == l.0 && k.1 == l.1

abbrev pub pod_key : Pod → Key
pod_key pod = (pod.meta.namespace, pod.meta.name)

abbrev pub endpoint_key : EgressEndpoint → Key
endpoint_key ep = (ep.namespace, ep.pod)

-- sliceEqual
abbrev pub elements_equal : List String → List String → Bool
elements_equal [] b = true
elements_equal (x ∷ a) [] = true
elements_equal (x ∷ a) (y ∷ b) = let rest = elements_equal a b in if x == y then rest else false

abbrev pub slice_equal : List String → List String → Bool
slice_equal a b = if nat_beq (length a) (length b) then elements_equal a b else false

module _ (t : NetText) where
  -- the addresses of a version, in the order of the pod
  unfoldable pub ips_v4 : List String → List String
  ips_v4 [] = []
  ips_v4 (s ∷ ips) = let rest = ips_v4 ips in if is_to4 (t.parse_ip s) then s ∷ rest else rest

  unfoldable pub ips_v6 : List String → List String
  ips_v6 [] = []
  ips_v6 (s ∷ ips) =
      let rest = ips_v6 ips in
      if is_to4 (t.parse_ip s) then rest else if is_to16 (t.parse_ip s) then s ∷ rest else rest

  -- newEndpoint
  unfoldable pub new_endpoint : Pod → Option EgressEndpoint
  new_endpoint pod =
      let ipv4 = ips_v4 pod.pod_ips in
      let ipv6 = ips_v6 pod.pod_ips in
      if nat_beq (length ipv4) 0 && nat_beq (length ipv6) 0
      then none
      else some (record {
        namespace = pod.meta.namespace;
        pod = pod.meta.name;
        ipv4 = ipv4;
        ipv6 = ipv6;
        node = pod.node_name;
      })

  -- needUpdateEndpoint, with the endpoint as it leaves it
  unfoldable pub need_update_endpoint : Pod → EgressEndpoint → Bool × EgressEndpoint
  need_update_endpoint pod ep =
      let ipv4 = sort_strings (ips_v4 pod.pod_ips) in
      let ipv6 = sort_strings (ips_v6 pod.pod_ips) in
      let other_v4 = not (slice_equal ipv4 ep.ipv4) in
      let other_v6 = not (slice_equal ipv6 ep.ipv6) in
      let other_node = not (pod.node_name == ep.node) in
      (
        other_v4 || (other_v6 || other_node),
        record ep {
          ipv4 = if other_v4 then ipv4 else ep.ipv4;
          ipv6 = if other_v6 then ipv6 else ep.ipv6;
          node = if other_node then pod.node_name else ep.node;
        },
      )

-- podMap[key]: the last pod of a key, since it is put last
unfoldable pub find_pod : Key → List Pod → Option Pod
find_pod key [] = none
find_pod key (pod ∷ pods) = elim (find_pod key pods) [
  | some p ↦ some p
  | none ↦ if key_eq (pod_key pod) key then some pod else none
]

-- existingKeyMap[key]
unfoldable pub has_key : Key → List Key → Bool
has_key key [] = false
has_key key (k ∷ keys) = let rest = has_key key keys in if key_eq k key then true else rest
