-- ===== src/Gateway/Pool.antt =====
-- pkg/egressgateway/egress_gateway.go: assignIP by the allocator policy "rr".
use egressgateway.Prelude.{
  ℕ, String, List, [], ◌∷◌, ◌++◌, map, ◌==◌, Option, none, some, nat_beq, length, get_elem?,
  if◌then◌else◌, Result, ok, err, panic, ◌>>=◌, not_enough_ip, not_in_pool, false,
}
use egressgateway.Prelude.{false}
use egressgateway.Api.{Eips, EgressIpStatus, EgressGateway, EgressIp}
use egressgateway.Ip.Address.{Ip}
use egressgateway.Ip.Text.{Host}
use egressgateway.Ip.Range.{ipv4, ipv6, parse_ip_ranges, ips_diff_set}
use egressgateway.Ip.Merge.{merge_ip_ranges, is_ip_included_range}
use egressgateway.Gateway.Lookup.{AssignedIp}
use egressgateway.Gateway.Nodes.{Request, put_eip}

-- the addresses of one version that a node and the nodes record
unfoldable pub eip_texts : (Eips → String) → List Eips → List String
eip_texts f [] = []
eip_texts f (eip ∷ eips) = if f eip == "" then eip_texts f eips else f eip ∷ eip_texts f eips

unfoldable pub used_texts : (Eips → String) → List EgressIpStatus → List String
unfolding eip_texts
used_texts f [] = []
used_texts f (node ∷ nodes) = eip_texts f node.eips ++ used_texts f nodes

module _ (h : Host) where
  -- the free address at a random place, as a text
  unfoldable pub pick_free : List Ip → Result String
  pick_free free =
      if nat_beq (length free) 0
      then err not_enough_ip
      else elim (get_elem? free (h.runtime.intn (length free))) [
        | none ↦ panic
        | some ip ↦ ok (h.text.ip_string ip)
      ]

  -- case4, one version: the address that the policy asks for must lie in the pool
  unfoldable pub asked_address : ℕ → String → List String → Result String
  asked_address version spec_ip ranges = do
    included ← is_ip_included_range h version spec_ip ranges
    if included then ok spec_ip else err not_in_pool

  -- or else one is chosen that no EIP uses
  unfoldable pub free_address : ℕ → List String → List String → Result String
  unfolding pick_free
  free_address version ranges used = do
    ips ← parse_ip_ranges h version ranges
    pick_free (ips_diff_set h ips (map h.text.parse_ip used) false)

  unfoldable pub rr_address : ℕ → List String → String → List String → Result String
  unfolding asked_address free_address
  rr_address version pool spec_ip used =
      if nat_beq (length pool) 0
      then ok ""
      else merge_ip_ranges h version pool >>= λ ranges.
          if spec_ip == ""
          then free_address version ranges used
          else asked_address version spec_ip ranges

  -- case4: panics when no node is ready, since then nIndex is -1
  unfoldable pub assign_rr :
      EgressGateway
      → Request
      → EgressIp
      → Option (ℕ × ℕ)
      → Result (Option AssignedIp × EgressGateway)
  unfolding rr_address put_eip used_texts
  assign_rr from req spec best = do
    a4 ←
        rr_address ipv4 from.spec.ippools.ipv4 spec.ipv4
          (used_texts (λ e. e.ipv4) from.status.node_list)
    a6 ←
        rr_address ipv6 from.spec.ippools.ipv6 spec.ipv6
          (used_texts (λ e. e.ipv6) from.status.node_list)
    elim best [ none ↦ panic | some (n_index, _) ↦ put_eip from req n_index a4 a6 ]
