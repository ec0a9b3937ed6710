-- ===== src/Ip/Cidr.antt =====
-- pkg/utils/ip/ip.go: the addresses of a CIDR, and of a list of CIDRs and ranges.
use mathlib.Core.List.{filter_map}
use egressgateway.Prelude.{
  ℕ, zero, suc, String, Bool, ◌&&◌, List, [], ◌∷◌, map, ◌==◌, Option, none, some, ltb, length,
  if◌then◌else◌, Result, ok, err, no_fuel, ◌>>=◌, invalid_cidr, invalid_ip,
}
use egressgateway.Ip.Address.{Ip, nil, IpNet, is_to4, contains, mask_ip, increment_ip}
use egressgateway.Ip.Text.{NetText, Host}
use egressgateway.Ip.Range.{parse_ip_ranges}

-- `for ip := …; ipnet.Contains(ip); incrementIP(ip) { ips = append(ips, cloneIP(ip)) }`
unfoldable pub cidr_loop : ℕ → IpNet → Ip → Result (List Ip)
cidr_loop zero net ip = no_fuel
cidr_loop (suc fuel) net ip =
    let rest = cidr_loop fuel net (increment_ip ip) in
    if contains net ip then (rest >>= λ ips. ok (ip ∷ ips)) else ok []

-- `ips[:len(ips)-1]` of a list that is not empty
unfoldable pub drop_last : List Ip → List Ip
drop_last [] = []
drop_last (x ∷ []) = []
drop_last (x ∷ y ∷ xs) = x ∷ drop_last (y ∷ xs)

-- `ips[1 : len(ips)-1]`
unfoldable pub inner : List Ip → List Ip
unfolding drop_last
inner [] = []
inner (x ∷ xs) = drop_last xs

-- CidrToIPs
unfoldable pub cidr_to_ips : Host → String → Result (List Ip)
unfolding mask_ip inner
cidr_to_ips h cidr = elim (h.text.parse_cidr cidr) [
  | none ↦ err invalid_cidr
  | some (ip, net) ↦ do
    ips ← cidr_loop h.fuel net (mask_ip ip net)
    ok (if ltb 2 (length ips) && is_to4 ip then inner ips else ips)
]

-- A map from the text of an address to the address.
abbrev pub IpMap : Type 0
IpMap = List (String × Ip)

-- ipMap[key] = ip
unfoldable pub put_ip : String → Ip → IpMap → IpMap
put_ip key ip [] = (key, ip) ∷ []
put_ip key ip ((j, old) ∷ m) = if j == key then (key, ip) ∷ m else (j, old) ∷ put_ip key ip m

unfoldable pub find_ip : IpMap → String → Option Ip
find_ip [] key = none
find_ip ((j, ip) ∷ m) key = if j == key then some ip else find_ip m key

module _ (h : Host) where
  -- `for _, v := range ips { ipMap[v.String()] = v }`
  unfoldable pub put_all : List Ip → IpMap → IpMap
  put_all [] m = m
  put_all (v ∷ ips) m = put_all ips (put_ip (h.text.ip_string v) v m)

  -- `for _, v := range ipMap { res = append(res, v) }`
  unfoldable pub map_values : IpMap → List Ip
  unfolding find_ip
  map_values m = filter_map (find_ip m) (h.runtime.range_keys (map (λ (e : String × Ip). e.0) m))

  -- the loop of CidrsToIPs over the CIDRs
  unfoldable pub put_cidrs : List String → IpMap → Result IpMap
  put_cidrs [] m = ok m
  put_cidrs (cidr ∷ cidrs) m = do ips ← cidr_to_ips h cidr; put_cidrs cidrs (put_all ips m)

  -- CidrsToIPs
  unfoldable pub cidrs_to_ips : List String → Result (List Ip)
  unfolding put_cidrs map_values
  cidrs_to_ips cidrs = do m ← put_cidrs cidrs []; ok (map_values m)

  -- the texts that net.ParseCIDR reads, and those that it does not
  unfoldable pub cidr_texts : List String → List String
  cidr_texts [] = []
  cidr_texts (v ∷ rest) = elim (h.text.parse_cidr v) [
    | none ↦ cidr_texts rest
    | some _ ↦ v ∷ cidr_texts rest
  ]

  unfoldable pub range_texts : List String → List String
  range_texts [] = []
  range_texts (v ∷ rest) = elim (h.text.parse_cidr v) [
    | none ↦ v ∷ range_texts rest
    | some _ ↦ range_texts rest
  ]

  -- ConvertCidrOrIPrangeToIPs
  unfoldable pub convert_cidr_or_iprange_to_ips : List String → ℕ → Result (List Ip)
  unfolding cidr_texts range_texts cidrs_to_ips put_all map_values
  convert_cidr_or_iprange_to_ips texts version = do
    range_ips ← parse_ip_ranges h version (range_texts texts)
    cidr_ips ← cidrs_to_ips (cidr_texts texts)
    ok (map_values (put_all cidr_ips (put_all range_ips [])))

-- IsIPIncludedCidr
unfoldable pub is_ip_included_cidr : NetText → String → String → Result Bool
unfolding contains
is_ip_included_cidr t ip cidr = elim (t.parse_ip ip) [
  | nil ↦ err invalid_ip
  | _ ↦ elim (t.parse_cidr cidr) [
    | none ↦ err invalid_cidr
    | some (_, net) ↦ ok (contains net (t.parse_ip ip))
  ]
]
