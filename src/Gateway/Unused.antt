-- ===== src/Gateway/Unused.antt =====
-- Proofs on assignIP by the allocator policy "rr" (pkg/egressgateway/egress_gateway.go).
use egressgateway.Prelude.{
  eq_iff, ℕ, String, ◌≡◌, sym, ◌∙◌, ap, true, false, List, Option, none, some, arith, get_elem?,
  length, All, Result, ok, >>=-eq-ok, Option-cases, inl, inr, nat_beq,
}
use egressgateway.Api.{EgressGateway, EgressIp, eip_allocator_rr}
use egressgateway.Ip.Address.{Ip}
use egressgateway.Ip.Text.{Host, IsHost}
use egressgateway.Ip.Range.{ipv4, ipv6, has_mark, parse_ip_ranges}
use egressgateway.Ip.Merge.{merge_ip_ranges}
use egressgateway.Ip.Diff.{is_named}
use egressgateway.Gateway.Lookup.{AssignedIp}
use egressgateway.Gateway.Nodes.{Request, put_eip, select_node}
use egressgateway.Gateway.Pool.{used_texts, free_address, rr_address, assign_rr}
use egressgateway.Gateway.Assign.{assign_ip}
use egressgateway.Gateway.Fresh.{IsV4, free_address_lem}

-- the IPv4 addresses of the EIPs of a gateway
abbrev pub used_ipv4s : EgressGateway → List String
used_ipv4s g = used_texts (λ e. e.ipv4) g.status.node_list

put_eip-ipv4 :
    (from : EgressGateway) (req : Request) (i : ℕ) (a4 a6 : String) (a : AssignedIp)
    (g : EgressGateway)
    → put_eip from req i a4 a6 ≡ ok (some a, g)
    → a.ipv4 ≡ a4
unfolding put_eip
put_eip-ipv4 from req i a4 a6 a g e = elim (Option-cases (get_elem? from.status.node_list i)) [
  | inl f ↦ ground arith
  | inr (n, f) ↦ ground arith
]

assign_rr-ipv4 :
    (h : Host) (from : EgressGateway) (req : Request) (spec : EgressIp) (best : Option (ℕ × ℕ))
    (a : AssignedIp) (g : EgressGateway)
    → assign_rr h from req spec best ≡ ok (some a, g)
    → rr_address h ipv4 from.spec.ippools.ipv4 spec.ipv4 (used_ipv4s from) ≡ ok a.ipv4
unfolding assign_rr
assign_rr-ipv4 h from req spec best a g e =
    let (a4, e4, h1) =
      >>=-eq-ok (rr_address h ipv4 from.spec.ippools.ipv4 spec.ipv4 (used_ipv4s from)) _ e in
    let (a6, e6, h2) =
      >>=-eq-ok
        (rr_address h ipv6 from.spec.ippools.ipv6 spec.ipv6
          (used_texts (λ x. x.ipv6) from.status.node_list))
        _ h1 in
    e4 ∙ ap (λ (x : String). ok x) (sym (chosen best a4 a6 h2))
  where
    chosen :
        (best : Option (ℕ × ℕ)) (a4 a6 : String)
        → ◌≡◌ {A = Result (Option AssignedIp × EgressGateway)}
            (elim best [ none ↦ Result.panic | some (n_index, _) ↦ put_eip from req n_index a4 a6 ])
            (ok (some a, g))
        → a.ipv4 ≡ a4
    chosen none a4 a6 x = cc
    chosen (some (i, m)) a4 a6 x = put_eip-ipv4 from req i a4 a6 a g x

rr_address-free :
    (h : Host) (version : ℕ) (pool ranges used : List String)
    → nat_beq (length pool) 0 ≡ false
    → merge_ip_ranges h version pool ≡ ok ranges
    → rr_address h version pool "" used ≡ free_address h version ranges used
unfolding rr_address
rr_address-free h version pool ranges used e m = ground (arith, m)

-- the policy asks for no address of its own and has the allocator policy "rr"
abbrev pub WantsRr : EgressIp → Type 0
WantsRr spec =
    (spec.use_node_ip ≡ false)
    × (spec.ipv4 ≡ "")
    × (spec.ipv6 ≡ "")
    × (spec.allocator_policy ≡ eip_allocator_rr)

assign_ip-rr :
    (h : Host) (from : EgressGateway) (req : Request) (spec : EgressIp)
    → WantsRr spec
    → assign_ip h from req spec
      ≡ assign_rr h from req spec (select_node 0 none from.status.node_list)
unfolding assign_ip
assign_ip-rr h from req spec (n, e4, e6, p) =
    ground (
      arith,
      eq_iff spec.ipv4 "",
      eq_iff spec.ipv6 "",
      eq_iff spec.allocator_policy eip_allocator_rr,
    )

-- Where the gateway's pool of IPv4 addresses is not empty and is read as IPv4 addresses, the IPv4
-- address that assignIP assigns to a policy of the allocator policy "rr" is the text of one of
-- them, and no EIP in the gateway's status had that address before.
pub assign_ip-unused :
    (h : Host) (from : EgressGateway) (req : Request) (spec : EgressIp) (a : AssignedIp)
    (g : EgressGateway) (ranges : List String) (ips : List Ip)
    → IsHost h
    → WantsRr spec
    → nat_beq (length from.spec.ippools.ipv4) 0 ≡ false
    → merge_ip_ranges h ipv4 from.spec.ippools.ipv4 ≡ ok ranges
    → parse_ip_ranges h ipv4 ranges ≡ ok ips
    → All IsV4 ips
    → assign_ip h from req spec ≡ ok (some a, g)
    → (is_named h.text a.ipv4 ips ≡ true) × (has_mark a.ipv4 (used_ipv4s from) ≡ false)
assign_ip-unused h from req spec a g ranges ips law rr pool merged parsed all e =
    let used = used_ipv4s from in
    let best = select_node 0 none from.status.node_list in
    let e4 = assign_rr-ipv4 h from req spec best a g (sym (assign_ip-rr h from req spec rr) ∙ e) in
    let free = rr_address-free h ipv4 from.spec.ippools.ipv4 ranges used pool merged in
    let same : rr_address h ipv4 from.spec.ippools.ipv4 "" used ≡ ok a.ipv4 =
      ap (λ x. rr_address h ipv4 from.spec.ippools.ipv4 x used) (sym rr.1) ∙ e4 in
    elim (free_address_lem h law ipv4 ranges used ips parsed all) [
      | inl (f, _) ↦ ground arith
      | inr (b, f, in_pool, unused) ↦ (ground arith, ground arith)
    ]
