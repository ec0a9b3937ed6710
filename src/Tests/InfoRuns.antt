-- ===== src/Tests/InfoRuns.antt =====
-- The theorem on reconcileNode of the cluster info, at a server with one node.
use egressgateway.Prelude.{
  ◌≡◌, refl, String, true, [], ◌∷◌, none, ok, err, ◌==◌, if◌then◌else◌, not_found, Result, arith,
}
use egressgateway.Utils.Slices.{equal_string_slice}
use egressgateway.Ip.Families.{is_ipv4, is_ipv6}
use egressgateway.ClusterInfo.Objects.{InfoClient, EgressClusterInfo, AddressedNode}
use egressgateway.ClusterInfo.Cidrs.{get_node_ip_list}
use egressgateway.ClusterInfo.Info.{reconcile_node, new_entries, lookup, remove_key, differs}
use egressgateway.ClusterInfo.Settled.{IsInfoServer, reconcile_node_again}
use egressgateway.Tests.EndpointRuns.{named, text}

-- the node n1 has the internal address a
abbrev find_node : String → Result AddressedNode
find_node name =
    if name == "n1"
    then ok (record {
      meta = named "" "n1";
      addresses =
          record { type = "Hostname"; address = "n1" }
          ∷ record { type = "InternalIP"; address = "a" }
          ∷ [];
    })
    else err not_found

-- the server's state is the default cluster info
abbrev client : InfoClient EgressClusterInfo
client = record {
  get_info = λ name s. (if name == "default" then ok s else err not_found, s);
  get_node = λ name s. (find_node name, s);
  get_ip_pool = λ name s. (err not_found, s);
  update_info_status = λ info s. (ok tt, record s { status = info.status });
  list_pods = λ key value s. (ok [], s);
}

server : IsInfoServer client
server = record {
  info_of = λ s. ok s;
  node_of = λ name s. find_node name;
  read_info = λ s. refl;
  read_node = λ name s. refl;
  written = λ info old s s' e e'. ground (arith, e, e');
  kept = λ name info s s' e. refl;
}

-- n1 has no address in the status, and a node that is gone has one
abbrev before : EgressClusterInfo
before = record {
  meta = named "" "default";
  spec = record {
    auto_detect = record { pod_cidr_mode = "auto"; cluster_ip = true; node_ip = true };
    extra_cidr = [];
  };
  status = record {
    node_ip =
        ("n1", record { ipv4 = []; ipv6 = [] })
        ∷ ("n0", record { ipv4 = "b" ∷ []; ipv6 = [] })
        ∷ [];
    cluster_ip = none;
    pod_cidr = [];
    extra_cidr = [];
  };
}

abbrev later : EgressClusterInfo
later = record before {
  status = record (before.status) {
    node_ip =
        ("n1", record { ipv4 = "a" ∷ []; ipv6 = [] })
        ∷ ("n0", record { ipv4 = "b" ∷ []; ipv6 = [] })
        ∷ [];
  };
}

runs : reconcile_node client text "n1" before ≡ (ok tt, later)
unfolding reconcile_node new_entries get_node_ip_list lookup remove_key differs is_ipv4 is_ipv6
    equal_string_slice
runs = refl

reconcile_node_again_example : reconcile_node client text "n1" later ≡ (ok tt, later)
reconcile_node_again_example = reconcile_node_again client text server "n1" before later runs
