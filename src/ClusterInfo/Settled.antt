-- ===== src/ClusterInfo/Settled.antt =====
-- Proofs on reconcileNode of pkg/controller/clusterinfo/clusterinfo.go: a second run.
use egressgateway.Prelude.{
  true, false, none, some, ok, refl, String, Option, List, ◌∷◌, [], ◌≡◌, ◌==◌, arith, eq_refl, inl,
  if◌then◌else◌, inr, Bool-cases, Result, err, panic, no_fuel, ◌∙◌, ap, sym,
}
use egressgateway.Utils.Slices.{equal_string_slice}
use egressgateway.Utils.Counts.{equal_string_slice_lem}
use egressgateway.Controller.Flow.{is_not_found, after}
use egressgateway.Ip.Text.{NetText}
use egressgateway.ClusterInfo.Objects.{InfoClient, IpListPair, EgressClusterInfo, AddressedNode}
use egressgateway.ClusterInfo.Info.{
  lookup, remove_key, set_key, differs, new_entries, reconcile_node, node_pair, default_name,
  or_missing, write_entries, set_node_ip,
}

equal_string_slice_refl : (a : List String) → equal_string_slice a a ≡ true
equal_string_slice_refl a = (equal_string_slice_lem a a).1 (λ s. refl)

differs_refl : (pair : IpListPair) → differs (some pair) pair ≡ false
unfolding differs
differs_refl pair = rw (equal_string_slice_refl pair.ipv4, equal_string_slice_refl pair.ipv6)

lookup-remove_key :
    (key : String) (es : List (String × IpListPair)) → lookup key (remove_key key es) ≡ none
unfolding lookup remove_key
lookup-remove_key key [] = refl
lookup-remove_key key (e ∷ es) =
    let rest = lookup-remove_key key es in
    elim (Bool-cases (e.0 == key)) [
      | inl same ↦ ground (arith, rest, same)
      | inr other ↦ ground (arith, rest, other)
    ]

lookup-set_key :
    (key : String) (pair : IpListPair) (es : List (String × IpListPair))
    → lookup key (set_key key pair es) ≡ some pair
unfolding lookup
lookup-set_key key pair es = rw (eq_refl key)

new_entries_again :
    {S : Type 0} (client : InfoClient S) (t : NetText) (key : String) (pair : Option IpListPair)
    (es es' : List (String × IpListPair))
    → new_entries client t key pair es ≡ some es'
    → new_entries client t key pair es' ≡ none
unfolding new_entries
new_entries_again client t key none es es' h = ground (arith, h, lookup-remove_key key es)
new_entries_again client t key (some pair) es es' h =
    ground (arith, h, lookup-set_key key pair es, differs_refl pair)

-- The API server as its documentation says: a read changes nothing, and a write of the status that
-- succeeds writes the status only.
pub record IsInfoServer {S : Type 0} (client : InfoClient S) : Type 0 where
  pub info_of : S → Result EgressClusterInfo
  pub node_of : String → S → Result AddressedNode
  pub read_info : (s : S) → client.get_info default_name s ≡ (info_of s, s)
  pub read_node : (name : String) (s : S) → client.get_node name s ≡ (node_of name s, s)
  pub written :
      (info old : EgressClusterInfo) (s s' : S)
      → info_of s ≡ ok old
      → client.update_info_status info s ≡ (ok tt, s')
      → info_of s' ≡ ok (record old { status = info.status })
  pub kept :
      (name : String) (info : EgressClusterInfo) (s s' : S)
      → client.update_info_status info s ≡ (ok tt, s')
      → node_of name s' ≡ node_of name s

-- what is found, a missing object as none
abbrev found_of : {A : Type 0} → Result A → Result (Option A)
found_of (ok a) = ok (some a)
found_of (err e) = if is_not_found e then ok none else err e
found_of panic = panic
found_of no_fuel = no_fuel

or_missing-found_of :
    {S A : Type 0} (client : InfoClient S) (t : NetText) (r : Result A) (s : S)
    → or_missing client t (r, s) ≡ (found_of r, s)
or_missing-found_of client t (ok a) s = refl
or_missing-found_of client t (err e) s = elim (Bool-cases (is_not_found e)) [
  | inl missing ↦ rw missing
  | inr other ↦ rw other
]
or_missing-found_of client t panic s = refl
or_missing-found_of client t no_fuel s = refl

module _ {S : Type 0} (client : InfoClient S) (t : NetText) (server : IsInfoServer client)
    (name : String) where
  -- a run that finds the cluster info
  run_info :
      (s : S) (info : EgressClusterInfo)
      → server.info_of s ≡ ok info
      → info.spec.auto_detect.node_ip ≡ true
      → reconcile_node client t name s
        ≡ after
            (found_of (server.node_of name s), s)
            (λ node.
              write_entries client t
                (set_node_ip client t info)
                (new_entries client t name (node_pair client t node) info.status.node_ip))
  unfolding reconcile_node
  run_info s info e on = rw (
    server.read_info s,
    e,
    on,
    server.read_node name s,
    or_missing-found_of client t (server.node_of name s) s,
  )

  -- the run is over where it stands
  again_idle :
      (s s' : S)
      → reconcile_node client t name s ≡ (ok tt, s)
      → reconcile_node client t name s ≡ (ok tt, s')
      → reconcile_node client t name s' ≡ (ok tt, s')
  again_idle s s' idle h = let same : s ≡ s' = ap (λ r. r.1) (sym idle ∙ h) in rw (sym same, idle)

  again_found :
      (s s' : S) (info : EgressClusterInfo) (found : Option AddressedNode)
      (es : Option (List (String × IpListPair)))
      → server.info_of s ≡ ok info
      → info.spec.auto_detect.node_ip ≡ true
      → found_of (server.node_of name s) ≡ ok found
      → new_entries client t name (node_pair client t found) info.status.node_ip ≡ es
      → reconcile_node client t name s ≡ (ok tt, s')
      → reconcile_node client t name s' ≡ (ok tt, s')
  again_found s s' info found none e on there new h =
      again_idle s s' (run_info s info e on ∙ rw (there, new)) h
  again_found s s' info found (some es) e on there new h =
      let wrote : client.update_info_status (set_node_ip client t info es) s ≡ (ok tt, s') =
        sym (run_info s info e on ∙ rw (there, new)) ∙ h in
      let node_there =
        ap found_of (server.kept name (set_node_ip client t info es) s s' wrote) ∙ there in
      let idle =
        new_entries_again client t name (node_pair client t found) info.status.node_ip es new in
      run_info s' (record info { status = record (info.status) { node_ip = es } })
        (server.written (set_node_ip client t info es) info s s' e wrote) on
      ∙ rw (node_there, idle)

  again_node :
      (s s' : S) (info : EgressClusterInfo) (node : Result (Option AddressedNode))
      → server.info_of s ≡ ok info
      → info.spec.auto_detect.node_ip ≡ true
      → found_of (server.node_of name s) ≡ node
      → reconcile_node client t name s ≡ (ok tt, s')
      → reconcile_node client t name s' ≡ (ok tt, s')
  again_node s s' info (ok node) e on there h = again_found s s' info node _ e on there refl h
  again_node s s' info (err error) e on there h =
      let run = rw there at (run_info s info e on) in absurd (ground (arith, run, h))
  again_node s s' info panic e on there h =
      let run = rw there at (run_info s info e on) in absurd (ground (arith, run, h))
  again_node s s' info no_fuel e on there h =
      let run = rw there at (run_info s info e on) in absurd (ground (arith, run, h))

  again_of :
      (s s' : S) (found : Result EgressClusterInfo) (node : Result (Option AddressedNode))
      → server.info_of s ≡ found
      → found_of (server.node_of name s) ≡ node
      → reconcile_node client t name s ≡ (ok tt, s')
      → reconcile_node client t name s' ≡ (ok tt, s')
  unfolding reconcile_node
  again_of s s' (ok info) node e there h = elim (Bool-cases info.spec.auto_detect.node_ip) [
    | inl on ↦ again_node s s' info node e on there h
    | inr off ↦ again_idle s s' (rw (server.read_info s, e, off)) h
  ]
  again_of s s' (err error) node e there h = elim (Bool-cases (is_not_found error)) [
    | inl missing ↦ again_idle s s' (rw (server.read_info s, e, missing)) h
    | inr other ↦ absurd (ground (arith, server.read_info s, e, other, h))
  ]
  again_of s s' panic node e there h = absurd (ground (arith, server.read_info s, e, h))
  again_of s s' no_fuel node e there h = absurd (ground (arith, server.read_info s, e, h))

  -- When reconcileNode succeeds, on an API server as documented, running it again on the state
  -- that it leaves succeeds and changes nothing.
  pub reconcile_node_again :
      (s s' : S)
      → reconcile_node client t name s ≡ (ok tt, s')
      → reconcile_node client t name s' ≡ (ok tt, s')
  reconcile_node_again s s' h =
      again_of s s' (server.info_of s) (found_of (server.node_of name s)) refl refl h
