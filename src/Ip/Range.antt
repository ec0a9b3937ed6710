-- ===== src/Ip/Range.antt =====
-- pkg/utils/ip/ip.go: ranges of addresses, "a" or "a-b", and differences of sets of addresses.
use egressgateway.Prelude.{
  ℕ, zero, suc, String, Bool, true, false, not, ◌||◌, ◌&&◌, List, [], ◌∷◌, ◌++◌, map, ◌==◌, nat_beq,
  if◌then◌else◌, Result, ok, err, no_fuel, ◌>>=◌, invalid_ip_version, invalid_ip_range_format,
}
use egressgateway.Prelude.Split.{split}
use egressgateway.Ip.Address.{Ip, nil, v4, v6, cmp_le, cmp_is_one, next_ip, sort_ips}
use egressgateway.Ip.Text.{NetText, Host, split_dash}

-- constant.IPv4, constant.IPv6
abbrev pub ipv4 : ℕ
ipv4 = 4

abbrev pub ipv6 : ℕ
ipv6 = 6

-- IsIPVersion
unfoldable pub is_ip_version : ℕ → Result (Unit {0})
is_ip_version version =
    if not (nat_beq version ipv4) && not (nat_beq version ipv6)
    then err invalid_ip_version
    else ok tt

module _ (t : NetText) where
  -- the tests of IsIPv4IPRange and of IsIPv6IPRange on the parts of the text
  unfoldable pub is_range_of : (String → Bool) → List String → Bool
  is_range_of is_address [] = true
  is_range_of is_address (a ∷ []) = is_address a
  is_range_of is_address (a ∷ b ∷ []) =
      if not (is_address a) || not (is_address b)
      then false
      else if cmp_is_one (t.parse_ip a) (t.parse_ip b)
      then false
      else true
  is_range_of is_address (a ∷ b ∷ c ∷ rest) = false

  -- IsIPv4IPRange
  unfoldable pub is_ipv4_ip_range : String → Bool
  unfolding is_range_of split
  is_ipv4_ip_range ip_range = is_range_of t.is_ipv4 (split_dash ip_range)

  -- IsIPv6IPRange
  unfoldable pub is_ipv6_ip_range : String → Bool
  unfolding is_range_of split
  is_ipv6_ip_range ip_range = is_range_of t.is_ipv6 (split_dash ip_range)

  -- IsIPRange
  unfoldable pub is_ip_range : ℕ → String → Result (Unit {0})
  unfolding is_ip_version is_ipv4_ip_range is_ipv6_ip_range
  is_ip_range version ip_range = do
    _ ← is_ip_version version
    if nat_beq version ipv4 && not (is_ipv4_ip_range ip_range)
          || nat_beq version ipv6 && not (is_ipv6_ip_range ip_range)
        then err invalid_ip_range_format
        else ok tt

-- `for Cmp(cur, end) <= 0 { ips = append(ips, cur); cur = NextIP(cur) }`
unfoldable pub range_loop : ℕ → Ip → Ip → Result (List Ip)
range_loop zero cur end = no_fuel
range_loop (suc fuel) cur end =
    let rest = range_loop fuel (next_ip cur) end in
    if cmp_le cur end then (rest >>= λ ips. ok (cur ∷ ips)) else ok []

module _ (h : Host) where
  -- the addresses of the parts of a range
  unfoldable pub range_ips : List String → Result (List Ip)
  range_ips (a ∷ []) = ok (h.text.parse_ip a ∷ [])
  range_ips (a ∷ b ∷ []) = range_loop h.fuel (h.text.parse_ip a) (h.text.parse_ip b)
  range_ips _ = ok []

  -- ParseIPRange
  unfoldable pub parse_ip_range : ℕ → String → Result (List Ip)
  unfolding is_ip_range range_ips split
  parse_ip_range version ip_range = do
    _ ← is_ip_range h.text version ip_range
    range_ips (split_dash ip_range)

  -- ParseIPRanges
  unfoldable pub parse_ip_ranges : ℕ → List String → Result (List Ip)
  parse_ip_ranges version [] = ok []
  parse_ip_ranges version (r ∷ rest) = do
    ips ← parse_ip_range version r
    sum ← parse_ip_ranges version rest
    ok (ips ++ sum)

-- A Go map used as a set of texts: its keys, each once.
unfoldable pub has_mark : String → List String → Bool
has_mark k [] = false
has_mark k (j ∷ marks) = k == j || has_mark k marks

unfoldable pub add_mark : String → List String → List String
unfolding has_mark
add_mark k marks = if has_mark k marks then marks else k ∷ marks

unfoldable pub delete_mark : String → List String → List String
delete_mark k [] = []
delete_mark k (j ∷ marks) = let rest = delete_mark k marks in if k == j then rest else j ∷ rest

module _ (t : NetText) where
  -- the two loops of IPsDiffSet; nil is passed over
  unfoldable pub mark_all : List Ip → List String → List String
  mark_all [] marks = marks
  mark_all (nil ∷ ips) marks = mark_all ips marks
  mark_all (v4 n ∷ ips) marks = mark_all ips (add_mark (t.ip_string (v4 n)) marks)
  mark_all (v6 n ∷ ips) marks = mark_all ips (add_mark (t.ip_string (v6 n)) marks)

  unfoldable pub unmark_all : List Ip → List String → List String
  unmark_all [] marks = marks
  unmark_all (nil ∷ ips) marks = unmark_all ips marks
  unmark_all (v4 n ∷ ips) marks = unmark_all ips (delete_mark (t.ip_string (v4 n)) marks)
  unmark_all (v6 n ∷ ips) marks = unmark_all ips (delete_mark (t.ip_string (v6 n)) marks)

-- IPsDiffSet
unfoldable pub ips_diff_set : Host → List Ip → List Ip → Bool → List Ip
unfolding mark_all unmark_all add_mark delete_mark has_mark
ips_diff_set h ips1 ips2 sorted =
    let marks = unmark_all h.text ips2 (mark_all h.text ips1 []) in
    let ips = map h.text.parse_ip (h.runtime.range_keys marks) in
    if sorted then sort_ips ips else ips
