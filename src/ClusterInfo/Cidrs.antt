-- ===== src/ClusterInfo/Cidrs.antt =====
-- pkg/controller/clusterinfo: cnicalico.go, k8snode.go and k8sservice.go.
use Prim.Native.Char.{code}
use egressgateway.Prelude.{
  true, false, ok, err, panic, String, List, Bool, Result, ◌∷◌, if◌then◌else◌, Error, [], ◌==◌,
  nat_beq, ◌++◌, ◌>>=◌,
}
use egressgateway.Ip.Text.{NetText}
use egressgateway.ClusterInfo.Objects.{InfoClient, IpPool, Container}
use egressgateway.Utils.Slices.{NodeAddress}
use egressgateway.Controller.Flow.{Exec, lift, pure, ◌>>>◌}
use egressgateway.Ip.Families.{cons_if, or_false, is_ipv4, is_ipv4_cidr, is_ipv6_cidr, is_ipv6}
use egressgateway.Prelude.Split.{split}

-- getNodeIPList
unfoldable pub get_node_ip_list : NetText → List NodeAddress → List String × List String
get_node_ip_list t [] = ([], [])
get_node_ip_list t (a ∷ addresses) =
    let rest = get_node_ip_list t addresses in
    if a.type == "InternalIP"
    then (
      cons_if (or_false (is_ipv4 t a.address)) a.address rest.0,
      cons_if (or_false (is_ipv6 t a.address)) a.address rest.1,
    )
    else rest

-- getCalicoIPPoolList
unfoldable pub get_calico_ip_pool_list : NetText → IpPool → List String × List String
get_calico_ip_pool_list t pool = (
  cons_if (or_false (is_ipv4_cidr t pool.cidr)) pool.cidr [],
  cons_if (or_false (is_ipv6_cidr t pool.cidr)) pool.cidr [],
)

-- strings.HasPrefix and strings.Contains
unfoldable pub has_prefix : String → String → Bool
has_prefix s String.[] = true
has_prefix String.[] (String.◌∷◌ d t) = false
has_prefix (String.◌∷◌ c s) (String.◌∷◌ d t) =
    let rest = has_prefix s t in if nat_beq (code c) (code d) then rest else false

unfoldable pub contains_text : String → String → Bool
unfolding has_prefix
contains_text String.[] t = has_prefix String.[] t
contains_text (String.◌∷◌ c s) t =
    let rest = contains_text s t in if has_prefix (String.◌∷◌ c s) t then true else rest

abbrev pub second_part : List String → Result String
second_part (a ∷ b ∷ rest) = ok b
second_part _ = panic

-- the value of the first argument that holds the parameter, empty without one
unfoldable pub ip_range_of : String → List String → Result String
unfolding contains_text
ip_range_of param [] = ok ""
ip_range_of param (c ∷ cs) =
    let rest = ip_range_of param cs in
    if contains_text c param then second_part (split b'=' c) else rest

-- the two lists, each nil unless it is set
unfoldable pub ranges_of : NetText → List String → List String × List String
ranges_of t (r ∷ []) =
    if or_false (is_ipv6_cidr t r)
    then ([], r ∷ [])
    else if or_false (is_ipv4_cidr t r)
    then (r ∷ [], [])
    else ([], [])
ranges_of t (a ∷ b ∷ []) = (a ∷ [], b ∷ [])
ranges_of t _ = ([], [])

-- parseCIDRFromControllerManager
unfoldable pub parse_cidr_from_controller_manager :
    NetText → List Container → String → Result (List String × List String)
unfolding ip_range_of ranges_of
parse_cidr_from_controller_manager t [] param = err (Error.message "failed to found containers")
parse_cidr_from_controller_manager t (container ∷ containers) param =
    ip_range_of param (container.command ++ container.args) >>= λ ip_range.
    if ip_range == ""
    then err (Error.message "failed to found the parameter")
    else ok (ranges_of t (split b',' ip_range))

module _ {S : Type 0} (client : InfoClient S) (t : NetText) where
  -- the first pod of the list is read; without one the next label is tried
  abbrev pub first_pod :
      List (List Container)
      → Exec S (List String × List String)
      → Exec S (List String × List String)
  first_pod [] next = next
  first_pod (pod ∷ pods) next =
      lift (parse_cidr_from_controller_manager t pod "--service-cluster-ip-range=")

  unfoldable pub cidr_of_labels : List (String × String) → Exec S (List String × List String)
  unfolding parse_cidr_from_controller_manager
  cidr_of_labels [] = pure ([], [])
  cidr_of_labels (item ∷ items) =
      client.list_pods item.0 item.1 >>> λ pods. first_pod pods (cidr_of_labels items)

  -- GetClusterCIDR, with kubeControllerManagerPodLabelList
  unfoldable pub get_cluster_cidr : Exec S (List String × List String)
  unfolding cidr_of_labels
  get_cluster_cidr =
      cidr_of_labels
        (("component", "kube-controller-manager") ∷ ("k8s-app", "kube-controller-manager") ∷ [])
