-- ===== src/Tests/Clusters.antt =====
-- A gateway with three nodes: one holds an EIP, one is free, one is not ready.
use egressgateway.Prelude.{◌-◌, nat_beq, String, false, List, [], ◌∷◌, none, ◌==◌, if◌then◌else◌}
use egressgateway.Prelude.Int.{pos}
use egressgateway.Api.{
  Policy, Eips, EgressIpStatus, EgressGateway, EgressIp, eip_allocator_default, eip_allocator_rr,
}
use egressgateway.Ip.Address.{Ip, nil, v4}
use egressgateway.Ip.Text.{Host}
use egressgateway.Gateway.Nodes.{Request}

-- it knows the texts of three addresses
abbrev pub toy_parse : String → Ip
toy_parse s =
    if s == "10.6.0.1"
    then v4 0x0a060001
    else if s == "10.6.0.2"
    then v4 0x0a060002
    else if s == "10.6.0.3"
    then v4 0x0a060003
    else nil

abbrev pub toy_string : Ip → String
toy_string (v4 n) =
    if nat_beq n 0x0a060001
    then "10.6.0.1"
    else if nat_beq n 0x0a060002
    then "10.6.0.2"
    else "10.6.0.3"
toy_string _ = "<nil>"

abbrev pub toy_host : Host
toy_host = record {
  text = record {
    parse_ip = toy_parse;
    ip_string = toy_string;
    parse_cidr = λ s. none;
    is_ipv4 = λ s. toy_string (toy_parse s) == s;
    is_ipv6 = λ s. false;
  };
  runtime = record { range_keys = λ keys. keys; intn = λ n. n - 1 };
  fuel = 8;
}

abbrev pub web : Request
web = record { namespace = "default"; name = "web" }

abbrev pub mail : Request
mail = record { namespace = "default"; name = "mail" }

abbrev pub web_policy : Policy
web_policy = record { name = "web"; namespace = "default" }

abbrev pub mail_policy : Policy
mail_policy = record { name = "mail"; namespace = "default" }

abbrev pub first_eip : Eips
first_eip = record { ipv4 = "10.6.0.1"; ipv6 = ""; policies = web_policy ∷ [] }

abbrev pub second_eip : Eips
second_eip = record { ipv4 = "10.6.0.2"; ipv6 = ""; policies = mail_policy ∷ [] }

abbrev pub node1 : EgressIpStatus
node1 = record { name = "node1"; eips = first_eip ∷ []; status = "Ready" }

abbrev pub node2 : EgressIpStatus
node2 = record { name = "node2"; eips = []; status = "Ready" }

abbrev pub node3 : EgressIpStatus
node3 = record { name = "node3"; eips = []; status = "NodeNotReady" }

abbrev pub gateway : List EgressIpStatus → EgressGateway
gateway nodes = record {
  meta = record { name = "egw"; namespace = ""; labels = []; finalizers = []; deleting = false };
  spec = record {
    cluster_default = false;
    ippools = record {
      ipv4 = "10.6.0.1" ∷ "10.6.0.2-10.6.0.3" ∷ [];
      ipv6 = [];
      ipv4_default_eip = "10.6.0.1";
      ipv6_default_eip = "";
    };
    node_selector = record { policy = ""; selector = none };
  };
  status = record {
    node_list = nodes;
    ip_usage = record {
      ipv4_total = pos 3;
      ipv4_free = pos 2;
      ipv6_total = pos 0;
      ipv6_free = pos 0;
    };
  };
}

abbrev pub cluster : EgressGateway
cluster = gateway (node1 ∷ node2 ∷ node3 ∷ [])

abbrev pub by_default : EgressIp
by_default = record {
  ipv4 = "";
  ipv6 = "";
  use_node_ip = false;
  allocator_policy = eip_allocator_default;
}

abbrev pub by_rr : EgressIp
by_rr = record by_default { allocator_policy = eip_allocator_rr }
