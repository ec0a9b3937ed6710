-- ===== src/Tunnel/Phases.antt =====
-- Proofs on the phase that updateEgressTunnel of pkg/controller/tunnel/egress_tunnel.go writes.
use egressgateway.Prelude.{
  ◌≡◌, Bool, not, ◌&&◌, ◌||◌, ◌==◌, if◌then◌else◌, arith, String, ap, true, ◌∙◌, false, refl,
}
use egressgateway.Api.{EgressTunnel}
use egressgateway.Api.Phase
use egressgateway.Tunnel.World.{Env, World}
use egressgateway.Tunnel.Update.{is_nil, is_empty, settle_phase, phase_if, with_phase}

phase_if-with_phase :
    (c : Bool) (phase old : String) (node : EgressTunnel)
    → phase_if c phase (with_phase node old) ≡ with_phase node (if c then phase else old)
phase_if-with_phase true phase old node = refl
phase_if-with_phase false phase old node = refl

-- tests that give the same value, one after the other
if-or :
    (a b : Bool) (x y : String) → (if a then x else if b then x else y) ≡ (if a || b then x else y)
if-or true b x y = refl
if-or false b x y = refl

-- two tests that give a phase, the second one first
phase_if-or :
    (a b : Bool) (phase old : String) (node : EgressTunnel)
    → phase_if a phase (phase_if b phase (with_phase node old))
      ≡ with_phase node (if a || b then phase else old)
phase_if-or a b phase old node =
    ap (phase_if a phase) (phase_if-with_phase b phase old node)
    ∙ phase_if-with_phase a phase (if b then phase else old) node
    ∙ ap (with_phase node) (if-or a b phase old)

or-order : (mac v6 v4 mark : Bool) → ((mac || v6) || (v4 || mark)) ≡ (mark || (mac || (v4 || v6)))
or-order mac v6 v4 mark = ground arith

module _ {S A B : Type 0} where
  -- a tunnel that wants its mark, its MAC address or an address of a version that is allocated
  abbrev is_incomplete : World S A B → EgressTunnel → Bool
  is_incomplete w node =
      is_empty node.status.mark
      || (node.status.tunnel.mac == ""
          || (node.status.tunnel.ipv4 == "" && not (is_nil w.allocator_v4)
              || node.status.tunnel.ipv6 == "" && not (is_nil w.allocator_v6)))

  -- The phase that updateEgressTunnel writes: Pending for a tunnel that wants its mark, its MAC
  -- address or an address of a version that is allocated, or else Init for one without a parent or
  -- without a phase, or else the tunnel's phase. The rest of the tunnel is written as it is.
  settle_phase_lem :
      (env : Env S A B) (w : World S A B) (node : EgressTunnel)
      → settle_phase env w node ≡ record node {
        status = record (node.status) {
          phase =
              if is_incomplete w node
              then Phase.pending
              else if node.status.tunnel.parent.name == "" || node.status.phase == ""
              then Phase.init
              else node.status.phase;
        };
      }
  unfolding settle_phase
  settle_phase_lem env w node =
      let s = node.status in
      let mac = s.tunnel.mac == "" in
      let v6 = s.tunnel.ipv6 == "" && not (is_nil w.allocator_v6) in
      let v4 = s.tunnel.ipv4 == "" && not (is_nil w.allocator_v4) in
      let mark = is_empty s.mark in
      let parent = s.tunnel.parent.name == "" in
      let unset = s.phase == "" in
      let early = if parent || unset then Phase.init else s.phase in
      let late = if v4 || mark then Phase.pending else early in
      ap
        (λ n.
          phase_if mac Phase.pending
            (phase_if v6 Phase.pending (phase_if v4 Phase.pending (phase_if mark Phase.pending n))))
        (phase_if-or parent unset Phase.init s.phase node)
      ∙ ap (λ n. phase_if mac Phase.pending (phase_if v6 Phase.pending n))
          (phase_if-or v4 mark Phase.pending early node)
      ∙ phase_if-or mac v6 Phase.pending late node
      ∙ ap (with_phase node) (
          if-or (mac || v6) (v4 || mark) Phase.pending early
          ∙ ap (λ c. if c then Phase.pending else early) (or-order mac v6 v4 mark))
