-- ===== src/Api/Phase.antt =====
-- EgressTunnelPhase of pkg/k8s/apis/v1beta1/egresstunnel_types.go: a string type with constants.
use egressgateway.Prelude.{String, Bool, not, ◌==◌}

abbrev pub pending : String
pending = "Pending"

abbrev pub init : String
init = "Init"

abbrev pub failed : String
failed = "Failed"

abbrev pub heartbeat_timeout : String
heartbeat_timeout = "HeartbeatTimeout"

abbrev pub node_not_ready : String
node_not_ready = "NodeNotReady"

abbrev pub ready : String
ready = "Ready"

abbrev pub is_equal : String → String → Bool
is_equal e s = e == s

abbrev pub is_not_equal : String → String → Bool
is_not_equal e s = not (e == s)
