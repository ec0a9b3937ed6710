-- ===== src/Agent/Peers.antt =====
-- What the reconciler of pkg/agent/vxlan.go holds and calls, and the neighbors of the device of
-- pkg/agent/vxlan/vxlan.go.
use egressgateway.Prelude.{
  ℕ, String, Bool, true, false, not, ◌&&◌, ◌==◌, ltb, if◌then◌else◌, ◌-◌, ◌^◌, List, [], ◌∷◌,
  Option, none, some, Result, ok, err, panic, no_fuel, ◌>>=◌,
}
use egressgateway.Prelude.Int.{ℤ, pos, negsuc}
use egressgateway.Api.{EgressGateway, EgressTunnel, EgressTunnelStatus}
use egressgateway.Ip.Address.{Ip, nil, is_to4}
use egressgateway.Ip.Text.{NetText}
use egressgateway.MarkAllocator.Text.{Bytes, replace_0x}
use egressgateway.Tunnel.Release.{is_to16}
use egressgateway.Controller.Flow.{Exec, ◌>>>◌, pure}
use egressgateway.Agent.Rules.{parse_int32}
use egressgateway.Agent.Routes.{Netlink}

pub record Peer : Type 0 where
  pub ipv4 : Option Ip
  pub ipv6 : Option Ip
  pub parent : Ip
  pub mac : List ℕ
  pub mark : ℤ

abbrev pub PeerMap : Type 0
PeerMap = List (String × Peer)

-- peerMap.Load, Delete and Store
unfoldable pub load_peer : String → PeerMap → Option Peer
load_peer k [] = none
load_peer k (p ∷ ps) = let rest = load_peer k ps in if p.0 == k then some p.1 else rest

unfoldable pub delete_peer : String → PeerMap → PeerMap
delete_peer k [] = []
delete_peer k (p ∷ ps) = let rest = delete_peer k ps in if p.0 == k then rest else p ∷ rest

abbrev pub store_peer : String → Peer → PeerMap → PeerMap
store_peer k p ps = (k, p) ∷ delete_peer k ps

-- config.Config, as far as the reconciler reads it
pub record VxlanConfig : Type 0 where
  pub node_name : String
  pub enable_ipv4 : Bool
  pub enable_ipv6 : Bool
  pub vxlan_name : String
  pub tunnel_update_period : ℕ

-- vxlan.Parent
pub record ParentLink : Type 0 where
  pub name : String
  pub ip : Ip

-- netlink.Neigh: of the two kinds that the device writes, ARP and FDB, or as it is listed
pub data NeighKind : Type 0 where
  arp fdb : NeighKind

pub record Neigh : Type 0 where
  pub kind : NeighKind
  pub link_index : ℕ
  pub ip : Ip
  pub hardware_addr : List ℕ

-- netlink.NeighList of IPv4, NeighSet and NeighDel
pub record NeighClient (S : Type 0) : Type 0 where
  pub neigh_list : ℕ → Exec S (List Neigh)
  pub neigh_set : Neigh → Exec S (Unit {0})
  pub neigh_del : Neigh → Exec S (Unit {0})

-- client.Client; an update of a status gives the object that the server answers
pub record VxlanClient (S : Type 0) : Type 0 where
  pub get_tunnel : String → Exec S EgressTunnel
  pub list_tunnels : Exec S (List EgressTunnel)
  pub get_gateway : String → Exec S EgressGateway
  pub update_status : EgressTunnel → Exec S EgressTunnel
  pub now : S → ℕ

-- vxlanReconciler, without what changes; range is the order in which a map is visited, and
-- hardware_addr the method String of net.HardwareAddr
pub record Env (S : Type 0) : Type 0 where
  pub cfg : VxlanConfig
  pub client : VxlanClient S
  pub netlink : Netlink S
  pub neigh : NeighClient S
  pub get_parent : ℕ → Exec S ParentLink
  pub text : NetText
  pub parse_mac : String → Option (List ℕ)
  pub hardware_addr : List ℕ → String
  pub range : PeerMap → PeerMap

-- its map, whether doOnce is done, the link of the device, if it is ready, to how many seconds the
-- timer was last set, and the state of the server and of the node
pub record World (S : Type 0) : Type 0 where
  pub peer_map : PeerMap
  pub done : Bool
  pub link : Option ℕ
  pub update_timer : ℕ
  pub server : S

abbrev pub at_server : {S X : Type 0} → Exec S X → Exec (World S) X
at_server m w = let r = m w.server in (r.0, record w { server = r.1 })

-- parseMarkToInt: int of what parseMark reads
abbrev pub signed : ℕ → ℤ
signed n = if ltb n (2 ^ 31) then pos n else negsuc (2 ^ 32 - n - 1)

unfoldable pub parse_mark_to_int : Bytes → Result ℤ
unfolding parse_int32
parse_mark_to_int mark = parse_int32 (replace_0x mark) >>= λ n. ok (signed n)

module _ {S : Type 0} (env : Env S) where
  -- the methods ListNeigh, add, Add and Del of the device
  abbrev pub list_neigh : Option ℕ → Exec S (List Neigh)
  list_neigh none = pure []
  list_neigh (some link) = env.neigh.neigh_list link

  abbrev pub add_ip : ℕ → List ℕ → Option Ip → Exec S (Unit {0})
  add_ip link mac none = pure tt
  add_ip link mac (some ip) =
      env.neigh.neigh_set (record { kind = arp; link_index = link; ip = ip; hardware_addr = mac })

  abbrev pub add_neigh : Option ℕ → Peer → Exec S (Unit {0})
  add_neigh none peer = pure tt
  add_neigh (some link) peer = add_ip link peer.mac peer.ipv6 >>> λ _.
      add_ip link peer.mac peer.ipv4 >>> λ _.
      env.neigh.neigh_set
        (record { kind = fdb; link_index = link; ip = peer.parent; hardware_addr = peer.mac })

  -- the second call is made after an error of the first too
  abbrev pub del_both : Result (Unit {0}) × S → Neigh → Result (Unit {0}) × S
  del_both (ok a, s) neigh = env.neigh.neigh_del neigh s
  del_both (err e, s) neigh = (env.neigh.neigh_del neigh >>> λ _ s'. (err e, s')) s
  del_both (panic, s) neigh = (panic, s)
  del_both (no_fuel, s) neigh = (no_fuel, s)

  abbrev pub del_neigh : Option ℕ → Neigh → Exec S (Unit {0})
  del_neigh none neigh s = pure tt s
  del_neigh (some link) neigh s =
      del_both (env.neigh.neigh_del (record neigh { kind = fdb }) s) neigh

  -- parseVTEP: an address of a version, and whether it is ready
  abbrev pub vtep_ip : Bool → (Ip → Bool) → String → Bool × Option Ip
  vtep_ip enabled is_version text =
      if not enabled
      then (true, none)
      else if text == ""
      then (false, none)
      else (is_version (env.text.parse_ip text), some (env.text.parse_ip text))

  unfoldable pub parse_vtep : EgressTunnelStatus → Option Peer
  parse_vtep status =
      let v4 = vtep_ip env.cfg.enable_ipv4 is_to4 status.tunnel.ipv4 in
      let v6 = vtep_ip env.cfg.enable_ipv6 is_to16 status.tunnel.ipv6 in
      elim (env.parse_mac status.tunnel.mac) [
        | none ↦ none
        | some mac ↦
            if v4.0 && v6.0
            then some (record { ipv4 = v4.1; ipv6 = v6.1; parent = nil; mac = mac; mark = pos 0 })
            else none
      ]

  -- version
  abbrev pub version : ℕ
  version = if not env.cfg.enable_ipv4 && env.cfg.enable_ipv6 then 6 else 4
