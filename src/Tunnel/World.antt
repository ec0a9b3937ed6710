-- ===== src/Tunnel/World.antt =====
-- pkg/controller/tunnel/egress_tunnel.go: what egReconciler holds and calls, and its deferred
-- rollbacks. ipallocator.Range of vendor/github.com/cilium/ipam and the API client are parameters.
use egressgateway.Prelude.{ℕ, String, Bool, if◌then◌else◌, List, [], ◌∷◌, Option, Result}
use egressgateway.Api.{EgressTunnel, Node}
use egressgateway.Ip.Address.{Ip}
use egressgateway.Ip.Text.{NetText}
use egressgateway.MarkAllocator.Range.{Allocator, Range}
use egressgateway.Controller.Flow.{Exec}

-- *ipallocator.Range
pub record IpAllocator (B : Type 0) : Type 0 where
  pub allocate : B → Ip → Result (Unit {0}) × B
  pub allocate_next : B → Result Ip × B
  pub release : B → Ip → Result (Unit {0}) × B

-- client.Client, as far as this controller calls it
pub record TunnelClient (S : Type 0) : Type 0 where
  pub get_tunnel : String → Exec S EgressTunnel
  pub get_node : String → Exec S Node
  pub list_tunnels : Exec S (List EgressTunnel)
  pub create_tunnel : EgressTunnel → Exec S (Unit {0})
  pub update_tunnel : EgressTunnel → Exec S (Unit {0})
  pub update_tunnel_status : EgressTunnel → Exec S (Unit {0})
  pub delete_tunnel : EgressTunnel → Exec S (Unit {0})
  -- time.Now, in seconds
  pub now : S → ℕ

-- the code that the controller calls, and its configuration (GatewayFailover)
pub record Env (S A B : Type 0) : Type 0 where
  pub marks : Allocator A
  pub ips : IpAllocator B
  pub client : TunnelClient S
  pub text : NetText
  -- crypto/sha1, and String of net.HardwareAddr
  pub sha1 : String → List ℕ
  pub hardware_addr : List ℕ → String
  pub failover : Bool
  pub eip_eviction_timeout : ℕ

-- egReconciler with the state of the API server; an allocator that is nil is none
pub record World (S A B : Type 0) : Type 0 where
  pub mark : Range A
  pub allocator_v4 : Option B
  pub allocator_v6 : Option B
  pub server : S

-- The functions with a deferred rollback end with a result, and with the variables that the
-- deferred function reads: whether `err` of the function is set, and the functions to roll back.
-- Most errors are held by an `err` of an inner block, and leave that variable as it is.
pub record Frame (W : Type 0) : Type 0 where
  pub outer_err : Bool
  pub rollback : List (W → W)

abbrev pub Body : Type 0 → Type 0
Body W = Result (Unit {0}) × Frame W × W

abbrev pub run_all : {W : Type 0} → List (W → W) → W → W
run_all [] w = w
run_all (f ∷ fs) w = run_all fs (f w)

-- defer func() { if err != nil { for _, f := range rollback { f() } } }()
unfoldable pub deferred : {W : Type 0} → Body W → Result (Unit {0}) × W
deferred (r, frame, w) = (r, if frame.outer_err then run_all frame.rollback w else w)

module _ {S A B : Type 0} where
  abbrev pub on_server : {X : Type 0} → World S A B → Result X × S → Result X × World S A B
  on_server w (r, s) = (r, record w { server = s })

  -- a call of the client
  abbrev pub call : {X : Type 0} → Exec S X → Exec (World S A B) X
  call f w = on_server w (f w.server)
