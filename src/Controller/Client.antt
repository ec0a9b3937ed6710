-- ===== src/Controller/Client.antt =====
-- client.Client of sigs.k8s.io/controller-runtime, as far as the controller calls it: an interface
-- over the state of the API server, whose calls may fail.
use egressgateway.Prelude.{String, Bool, List, Option, Result}
use egressgateway.Api.{EgressGateway, EgressPolicy, EgressTunnel, Node, LabelSelector}
use egressgateway.Controller.Flow.{Exec}

pub record Client (S : Type 0) : Type 0 where
  pub get_gateway : String → Exec S EgressGateway
  pub list_gateways : Exec S (List EgressGateway)
  pub update_gateway : EgressGateway → Exec S (Unit {0})
  pub update_gateway_status : EgressGateway → Exec S (Unit {0})
  -- by namespace and name
  pub get_policy : String → String → Exec S EgressPolicy
  pub list_policies : Exec S (List EgressPolicy)
  pub update_policy : EgressPolicy → Exec S (Unit {0})
  pub update_policy_status : EgressPolicy → Exec S (Unit {0})
  pub get_cluster_policy : String → String → Exec S EgressPolicy
  pub list_cluster_policies : Exec S (List EgressPolicy)
  pub update_cluster_policy_status : EgressPolicy → Exec S (Unit {0})
  pub get_node : String → Exec S Node
  -- the nodes whose labels match
  pub list_nodes : Option LabelSelector → Exec S (List Node)
  pub get_tunnel : String → Exec S EgressTunnel

-- metav1.LabelSelectorAsSelector, and Matches of what it returns
pub record Labels : Type 0 where
  pub as_selector : Option LabelSelector → Result (List (String × String) → Bool)
