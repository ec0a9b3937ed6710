-- ===== src/Ip/Merge.antt =====
-- pkg/utils/ip/ip.go: merging ranges, and membership in a list of ranges.
use Prim.Native.String.{◌++◌ as text_append}
use egressgateway.Prelude.{
  ℕ, String, Bool, true, false, not, ◌||◌, ◌&&◌, List, [], ◌∷◌, ◌++◌, map, ltb, nat_beq, length,
  none, some, if◌then◌else◌, Result, ok, err, ◌>>=◌, invalid_ip, invalid_ip_range_format,
}
use egressgateway.Ip.Address.{Ip, nil, v4, v6, is_to4, ip_equal, next_ip, sort_ips}
use egressgateway.Ip.Text.{NetText, Host}
use egressgateway.Ip.Range.{
  ipv4, ipv6, is_ip_version, is_ip_range, is_ipv4_ip_range, is_ipv6_ip_range, parse_ip_range,
  add_mark, ips_diff_set,
}
use egressgateway.Ip.Cidr.{convert_cidr_or_iprange_to_ips, is_ip_included_cidr}

module _ (t : NetText) where
  -- the texts of the addresses, each once; an address of the other version is an error
  unfoldable pub collect_texts : ℕ → List Ip → List String → Result (List String)
  unfolding add_mark
  collect_texts version [] set = ok set
  collect_texts version (ip ∷ ips) set =
      let rest = collect_texts version ips (add_mark (t.ip_string ip) set) in
      if nat_beq version ipv4 && not (is_to4 ip) || nat_beq version ipv6 && is_to4 ip
      then err invalid_ip
      else rest

  -- one range of the result; `single` says that start and end are one index
  unfoldable pub range_text : Bool → Ip → Ip → String
  range_text single start end =
      if single
      then t.ip_string start
      else text_append (t.ip_string start) (text_append "-" (t.ip_string end))

  -- the loop of ConvertIPsToIPRanges: ips[start] and ips[end] are at hand, the list is ips[end+1:]
  unfoldable pub group : Bool → Ip → Ip → List Ip → List String
  unfolding range_text
  group single start end [] = range_text single start end ∷ []
  group single start end (x ∷ rest) =
      let longer = group false start x rest in
      let next = group true x x rest in
      if ip_equal x (next_ip end) then longer else range_text single start end ∷ next

  unfoldable pub group_all : List Ip → List String
  unfolding group
  group_all [] = []
  group_all (x ∷ rest) = group true x x rest

module _ (h : Host) where
  -- ConvertIPsToIPRanges
  unfoldable pub convert_ips_to_ip_ranges : ℕ → List Ip → Result (List String)
  unfolding is_ip_version collect_texts group_all sort_ips
  convert_ips_to_ip_ranges version ips = do
    _ ← is_ip_version version
    set ← collect_texts h.text version ips []
    ok (group_all h.text (sort_ips (map h.text.parse_ip (h.runtime.range_keys set))))

  -- MergeIPRanges
  unfoldable pub merge_ip_ranges : ℕ → List String → Result (List String)
  unfolding convert_ips_to_ip_ranges
  merge_ip_ranges version ip_ranges = do
    ips ← convert_cidr_or_iprange_to_ips h ip_ranges version
    convert_ips_to_ip_ranges version ips

  -- `ips, _ := ParseIPRange(…)`: an error leaves the nil slice
  unfoldable pub ignore_error : Result (List Ip) → Result (List Ip)
  ignore_error (err e) = ok []
  ignore_error r = r

  -- IsIPRangeOverlap
  unfoldable pub is_ip_range_overlap : ℕ → String → String → Result Bool
  unfolding is_ip_version ignore_error
  is_ip_range_overlap version ip_range1 ip_range2 = do
    _ ← is_ip_version version
    _ ← is_ip_range h.text version ip_range1
    _ ← is_ip_range h.text version ip_range2
    ips1 ← ignore_error (parse_ip_range h version ip_range1)
    ips2 ← ignore_error (parse_ip_range h version ip_range2)
    ok (ltb (length (ips_diff_set h ips1 ips2 false)) (length ips1))

  -- the loop of IsIPIncludedRange
  unfoldable pub included_in : ℕ → String → List String → Result Bool
  included_in version ip [] = ok false
  included_in version ip (item ∷ items) = do
    result ← is_ip_range_overlap version ip item
    let rest = included_in version ip items
    if result then ok true else rest

  -- IsIPIncludedRange
  unfoldable pub is_ip_included_range : ℕ → String → List String → Result Bool
  unfolding included_in
  is_ip_included_range version ip ip_range = do
    ips ← merge_ip_ranges version ip_range
    included_in version ip ips

  -- CheckIPIncluded: the loops over the CIDRs, the IPv4 ranges and the IPv6 ranges among the texts
  unfoldable pub in_cidrs : String → List String → Result Bool
  in_cidrs ip [] = ok false
  in_cidrs ip (item ∷ items) = elim (h.text.parse_cidr item) [
    | none ↦ in_cidrs ip items
    | some _ ↦
        let rest = in_cidrs ip items in
        is_ip_included_cidr h.text ip item >>= λ include. if include then ok true else rest
  ]

  -- the texts that are no CIDR, split by version
  unfoldable pub sort_texts :
      List String → List String → List String → Result (List String × List String)
  sort_texts [] v4s v6s = ok (v4s, v6s)
  sort_texts (item ∷ items) v4s v6s = elim (h.text.parse_cidr item) [
    | some _ ↦ sort_texts items v4s v6s
    | none ↦
        let as_v4 = sort_texts items (v4s ++ item ∷ []) v6s in
        let as_v6 = sort_texts items v4s (v6s ++ item ∷ []) in
        if is_ipv4_ip_range h.text item
        then as_v4
        else if is_ipv6_ip_range h.text item
        then as_v6
        else err invalid_ip_range_format
  ]

  -- CheckIPIncluded after its first test, for an address of the given family
  unfoldable pub check_ip : Bool → String → List String → Result Bool
  unfolding sort_texts in_cidrs
  check_ip is_v4 ip ips = do
    (v4s, v6s) ← sort_texts ips [] []
    in_cidr ← in_cidrs ip ips
    if in_cidr
        then ok true
        else is_ip_included_range (if is_v4 then ipv4 else ipv6) ip (if is_v4 then v4s else v6s)

  -- CheckIPIncluded
  unfoldable pub check_ip_included : String → List String → Result Bool
  unfolding check_ip
  check_ip_included ip ips = elim (h.text.parse_ip ip) [
    | nil ↦ err invalid_ip
    | v4 n ↦ check_ip true ip ips
    | v6 n ↦ check_ip false ip ips
  ]
