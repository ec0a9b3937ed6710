-- ===== src/Agent/PeerMaps.antt =====
-- Proofs on the map of peers of pkg/agent/vxlan.go.
use egressgateway.Prelude.{
  String, Bool, true, false, ◌==◌, eq_iff, if◌then◌else◌, List, [], ◌∷◌, Option, none, some, Result,
  ok, err, ◌≡◌, refl, sym, ap, ◌∙◌, arith, inl, inr, Bool-cases, panic, no_fuel, ◌||◌, ℕ, not,
  nat_beq,
}
use egressgateway.Api.{EgressTunnel}
use egressgateway.Api.Phase.{ready}
use egressgateway.Gateway.Nodes.{Request}
use egressgateway.Agent.Held.{after-ok}
use egressgateway.Agent.Peers.{
  Peer, PeerMap, load_peer, delete_peer, store_peer, Env, World, at_server, parse_vtep,
  parse_mark_to_int, version,
}
use egressgateway.Agent.Vxlan.{
  store_ready, init_tunnel_peer_map, peer_of, reconcile_egress_tunnel, tunnel_found, store_vtep,
  drop_tunnel, keep_peer, ensure_routes, ensure_egress_tunnel_status, if_is, mark_or_zero,
}
use egressgateway.Agent.World.{or_missing}
use egressgateway.Ip.Address.{is_to4}
use egressgateway.Tunnel.Release.{is_to16}

load_peer-delete_peer :
    (k name : String) (ps : PeerMap)
    → load_peer k (delete_peer name ps) ≡ (if k == name then none else load_peer k ps)
unfolding load_peer delete_peer
load_peer-delete_peer k name [] = ground arith
load_peer-delete_peer k name (p ∷ ps) =
    ground (arith, load_peer-delete_peer k name ps, eq_iff p.0 k, eq_iff p.0 name, eq_iff k name)

load_peer-store_peer :
    (k name : String) (peer : Peer) (ps : PeerMap)
    → load_peer k (store_peer name peer ps) ≡ (if k == name then some peer else load_peer k ps)
unfolding load_peer
load_peer-store_peer k name peer ps =
    ground (arith, load_peer-delete_peer k name ps, eq_iff name k, eq_iff k name)

module _ {S : Type 0} (env : Env S) where
  store_vtep-others :
      (o : Option Peer) (w : World S) (k : String)
      → (k == env.cfg.node_name) ≡ false
      → load_peer k (store_vtep env env.cfg.node_name o w).peer_map ≡ load_peer k w.peer_map
  store_vtep-others none w k h = refl
  store_vtep-others (some p) w k h =
      ground (arith, load_peer-store_peer k env.cfg.node_name p w.peer_map, h)

  store_ready-others :
      (items : List EgressTunnel) (w : World S) (k : String)
      → (k == env.cfg.node_name) ≡ false
      → load_peer k (store_ready env items w).peer_map ≡ load_peer k w.peer_map
  unfolding store_ready
  store_ready-others [] w k h = refl
  store_ready-others (item ∷ items) w k h = elim (Bool-cases (item.status.phase == ready)) [
    | inl now ↦
        rw (now, store_ready)
          (store_ready-others items _ k h ∙ store_vtep-others (parse_vtep env item.status) w k h)
    | inr other ↦ rw (other, store_ready) (store_ready-others items w k h)
  ]

  -- When initTunnelPeerMap succeeds, whatever tunnels are listed and ready, the peer of every name
  -- other than this node's is as before: it stores no peer of another node.
  pub init_tunnel_peer_map-others :
      (w w' : World S)
      → init_tunnel_peer_map env w ≡ (ok tt, w')
      → (k : String) → (k == env.cfg.node_name) ≡ false
      → load_peer k w'.peer_map ≡ load_peer k w.peer_map
  unfolding init_tunnel_peer_map
  init_tunnel_peer_map-others w w' h k other =
      let (items, mid, listed, last) = after-ok (at_server env.client.list_tunnels w) _ h in
      ap (λ q. load_peer k q.1.peer_map) (sym last)
      ∙ store_ready-others items mid k other
      ∙ ap (λ q. load_peer k q.1.peer_map) (sym listed)

  -- the address of the parent of the version that the agent uses, IPv6 only where it is the only one
  abbrev pub parent_text : EgressTunnel → String
  parent_text node =
      if env.cfg.enable_ipv4 || not env.cfg.enable_ipv6
      then node.status.tunnel.parent.ipv4
      else node.status.tunnel.parent.ipv6

  -- the peer that a tunnel stands for, when its parent has that address and its MAC is read
  abbrev pub peer_with : EgressTunnel → String → List ℕ → Peer
  peer_with node parent mac = record {
    ipv4 = if_is env is_to4 (env.text.parse_ip node.status.tunnel.ipv4);
    ipv6 = if_is env is_to16 (env.text.parse_ip node.status.tunnel.ipv6);
    parent = env.text.parse_ip parent;
    mac = mac;
    mark = mark_or_zero env (parse_mark_to_int node.status.mark);
  }

  abbrev pub ready_peer : EgressTunnel → Option (List ℕ) → Option Peer → Option Peer
  ready_peer node none old = old
  ready_peer node (some mac) old =
      if parent_text node == "" then old else some (peer_with node (parent_text node) mac)

  -- the peer of a node after the reconcile of its tunnel, as it is found
  abbrev pub peer_after : Option EgressTunnel → Option Peer → Option Peer
  peer_after none old = none
  peer_after (some node) old =
      if node.meta.deleting
      then none
      else ready_peer node (env.parse_mac node.status.tunnel.mac) old

  abbrev found_peer : EgressTunnel → Option (List ℕ) → String → Option Peer
  found_peer node o parent =
      if parent == ""
      then none
      else elim o [ none ↦ none | some mac ↦ some (peer_with node parent mac) ]

  abbrev or_old : Option Peer → Option Peer → Option Peer
  or_old old o = elim o [ none ↦ old | some peer ↦ some peer ]

  found_peer-ready_peer :
      (node : EgressTunnel) (o : Option (List ℕ)) (old : Option Peer)
      → or_old old (found_peer node o (parent_text node)) ≡ ready_peer node o old
  found_peer-ready_peer node none old = elim (Bool-cases (parent_text node == "")) [
    | inl missing ↦ rw missing refl
    | inr there ↦ rw there refl
  ]
  found_peer-ready_peer node (some mac) old = elim (Bool-cases (parent_text node == "")) [
    | inl missing ↦ rw missing refl
    | inr there ↦ rw there refl
  ]

  parent_text-version :
      (node : EgressTunnel)
      → (if nat_beq (version env) 4
          then node.status.tunnel.parent.ipv4
          else node.status.tunnel.parent.ipv6)
        ≡ parent_text node
  parent_text-version node = elim (Bool-cases env.cfg.enable_ipv4) [
    | inl on ↦ rw on refl
    | inr off ↦ elim (Bool-cases env.cfg.enable_ipv6) [
      | inl on ↦ rw (off, on) refl
      | inr out ↦ rw (off, out) refl
    ]
  ]

  peer_of-ready_peer :
      (node : EgressTunnel) (old : Option Peer)
      → or_old old (peer_of env node) ≡ ready_peer node (env.parse_mac node.status.tunnel.mac) old
  unfolding peer_of
  peer_of-ready_peer node old =
      ap (λ t. or_old old (found_peer node (env.parse_mac node.status.tunnel.mac) t))
        (parent_text-version node)
      ∙ found_peer-ready_peer node (env.parse_mac node.status.tunnel.mac) old

  drop_tunnel-peers :
      (name : String) (w w' : World S)
      → (name == env.cfg.node_name) ≡ false
      → drop_tunnel env name w ≡ (ok tt, w')
      → (k : String)
      → load_peer k w'.peer_map ≡ (if k == name then none else load_peer k w.peer_map)
  drop_tunnel-peers name w w' other h k =
      ap (λ q. load_peer k q.1.peer_map) (sym (rw other at h))
      ∙ load_peer-delete_peer k name w.peer_map

  keep_peer-peers :
      (node : EgressTunnel) (name : String)
      → node.meta.name ≡ name
      → (o : Option Peer) (w w' : World S) → keep_peer env node o w ≡ (ok tt, w')
      → (k : String)
      → load_peer k w'.peer_map ≡ (
          if k == name
          then elim o [ none ↦ load_peer name w.peer_map | some p ↦ some p ]
          else load_peer k w.peer_map)
  keep_peer-peers node name e none w w' h k = ground (
    arith,
    ap (λ q. load_peer k q.1.peer_map) h,
    eq_iff k name,
    λ (same : k ≡ name). ap (λ n. load_peer n w.peer_map) same,
  )
  keep_peer-peers node name e (some peer) w w' h k =
      let (u, mid, first, last) = after-ok (ensure_routes env _) _ h in
      ap (λ q. load_peer k q.1.peer_map) (sym last)
      ∙ ap (λ q. load_peer k q.1.peer_map) (sym first)
      ∙ load_peer-store_peer k node.meta.name peer w.peer_map
      ∙ ap (λ n. if k == n then some peer else load_peer k w.peer_map) e

  or_missing-some :
      {A : Type 0} (r : Result A × S) {o : Option A} {a : A} {s : S}
      → or_missing r ≡ (ok o, s)
      → o ≡ some a
      → r ≡ (ok a, s)
  or_missing-some (ok b, t) h k = ground (arith, h, k)
  or_missing-some (err e, t) h k = absurd (ground (arith, h, k))
  or_missing-some (panic, t) h k = absurd (ground (arith, h))
  or_missing-some (no_fuel, t) h k = absurd (ground (arith, h))

  found-peers :
      (name : String) (node : EgressTunnel) (deleting : Bool) (w w' : World S)
      → (name == env.cfg.node_name) ≡ false
      → node.meta.name ≡ name
      → (if deleting
            then drop_tunnel env name
            else if name == env.cfg.node_name
            then ensure_egress_tunnel_status env node
            else keep_peer env node (peer_of env node))
          w
        ≡ (ok tt, w')
      → (k : String)
      → load_peer k w'.peer_map ≡ (
          if k == name
          then (if deleting then none else elim (peer_of env node) [
            | none ↦ load_peer name w.peer_map
            | some peer ↦ some peer
          ])
          else load_peer k w.peer_map)
  found-peers name node true w w' other e h k = drop_tunnel-peers name w w' other h k
  found-peers name node false w w' other e h k =
      keep_peer-peers node name e (peer_of env node) w w' (rw other at h) k

  tunnel_found-peers :
      (name : String) (found : Option EgressTunnel) (w w' : World S)
      → (name == env.cfg.node_name) ≡ false
      → ((t : EgressTunnel) → found ≡ some t → t.meta.name ≡ name)
      → tunnel_found env name found w ≡ (ok tt, w')
      → (k : String)
      → load_peer k w'.peer_map ≡ (
          if k == name
          then peer_after found (load_peer name w.peer_map)
          else load_peer k w.peer_map)
  tunnel_found-peers name none w w' other named h k = drop_tunnel-peers name w w' other h k
  tunnel_found-peers name (some node) w w' other named h k =
      found-peers name node node.meta.deleting w w' other (named node refl) h k
      ∙ ap
          (λ o.
            if k == name then (if node.meta.deleting then none else o) else load_peer k w.peer_map)
          (peer_of-ready_peer node (load_peer name w.peer_map))

  -- When the reconcile of the tunnel of another node succeeds, where the server gives the tunnel
  -- by its name, the peer of that node has the addresses, the MAC and the mark of the tunnel
  -- found and the parent's address of the version that the agent uses; it is the old one when
  -- that address is missing or the MAC is not read, and none when the tunnel is not found or is
  -- being deleted; the peers of all other nodes are as before.
  pub reconcile_egress_tunnel-peers :
      ((name : String) (s s' : S) (t : EgressTunnel)
        → env.client.get_tunnel name s ≡ (ok t, s')
        → t.meta.name ≡ name)
      → (req : Request) (w w' : World S) → (req.name == env.cfg.node_name) ≡ false
      → reconcile_egress_tunnel env req w ≡ (ok tt, w')
      → (found : Option EgressTunnel) × (s : S) × (or_missing
            (env.client.get_tunnel req.name w.server)
          ≡ (ok found, s))
        × ((k : String)
            → load_peer k w'.peer_map ≡ (
                if k == req.name
                then peer_after found (load_peer req.name w.peer_map)
                else load_peer k w.peer_map))
  unfolding reconcile_egress_tunnel
  reconcile_egress_tunnel-peers names req w w' other h =
      let get = λ (s : S). or_missing (env.client.get_tunnel req.name s) in
      let (found, mid, first, last) = after-ok (at_server get w) _ h in
      let here : or_missing (env.client.get_tunnel req.name w.server) ≡ (ok found, mid.server) =
        ap (λ q. (q.0, q.1.server)) first in
      (
        found,
        mid.server,
        here,
        λ k.
            tunnel_found-peers req.name found mid w' other
              (λ t e.
                names req.name w.server mid.server t
                  (or_missing-some (env.client.get_tunnel req.name w.server) here e))
              last k
            ∙ ap
                (λ q.
                  if k == req.name
                  then peer_after found (load_peer req.name q.1.peer_map)
                  else load_peer k q.1.peer_map)
                (sym first),
      )
