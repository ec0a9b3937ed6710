-- ===== src/Tunnel/Update.antt =====
-- pkg/controller/tunnel/egress_tunnel.go: updateEgressTunnel and generateMACAddress.
use Prim.Native.String.{◌++◌}
use egressgateway.Prelude.{
  ℕ, zero, suc, String, Bool, true, false, ◌&&◌, ◌==◌, if◌then◌else◌, List, [], ◌∷◌, Option, none,
  some, Result, ok, err, panic, no_fuel, Error, not,
}
use egressgateway.Api.{EgressTunnel, Tunnel}
use egressgateway.Api.Phase
use egressgateway.Controller.Flow.{Exec}
use egressgateway.Tunnel.World.{Env, World, call}

abbrev pub is_nil : {B : Type 0} → Option B → Bool
is_nil none = true
is_nil (some b) = false

abbrev pub is_empty : List ℕ → Bool
is_empty [] = true
is_empty (b ∷ bs) = false

abbrev pub with_phase : EgressTunnel → String → EgressTunnel
with_phase node phase = record node { status = record (node.status) { phase = phase } }

abbrev pub with_tunnel : EgressTunnel → Tunnel → EgressTunnel
with_tunnel node tunnel = record node { status = record (node.status) { tunnel = tunnel } }

abbrev pub with_mark : EgressTunnel → List ℕ → EgressTunnel
with_mark node mark = record node { status = record (node.status) { mark = mark } }

-- `if c { node.Status.Phase = phase }`
abbrev pub phase_if : Bool → String → EgressTunnel → EgressTunnel
phase_if c phase node = if c then with_phase node phase else node

-- fmt.Errorf("…: %v", err)
abbrev pub as_message : String → {X W : Type 0} → Result X × W → Result X × W
as_message m (err e, w) = (err (Error.message m), w)
as_message m (ok x, w) = (ok x, w)
as_message m (panic, w) = (panic, w)
as_message m (no_fuel, w) = (no_fuel, w)

module _ {S A B : Type 0} (env : Env S A B) where
  -- the phase that updateEgressTunnel writes
  unfoldable pub settle_phase : World S A B → EgressTunnel → EgressTunnel
  settle_phase w node =
      let s = node.status in
      let t = s.tunnel in
      phase_if (t.mac == "") Phase.pending (
        phase_if (t.ipv6 == "" && not (is_nil w.allocator_v6)) Phase.pending (
          phase_if (t.ipv4 == "" && not (is_nil w.allocator_v4)) Phase.pending (
            phase_if (is_empty s.mark) Phase.pending (
              phase_if (t.parent.name == "") Phase.init
                (phase_if (s.phase == "") Phase.init node)))))

  -- updateEgressTunnel
  unfoldable pub update_egress_tunnel : EgressTunnel → Exec (World S A B) (Unit {0})
  update_egress_tunnel node w =
      as_message "rebuild failed to update egress tunnel"
        (call (env.client.update_tunnel_status (settle_phase w node)) w)

  abbrev pub first : ℕ → List ℕ → List ℕ
  first zero bs = []
  first (suc n) [] = []
  first (suc n) (b ∷ bs) = b ∷ first n bs

  -- generateMACAddress; Write of a hash returns no error
  unfoldable pub generate_mac_address : String → String
  generate_mac_address node_name =
      env.hardware_addr (b'f' ∷ first 5 (env.sha1 (node_name ++ "egress")))
