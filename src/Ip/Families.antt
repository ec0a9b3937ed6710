-- ===== src/Ip/Families.antt =====
-- pkg/utils/ip/ip.go: which family a text is of, and the comparison of lists of texts.
use Prim.Native.Char.{code}
use egressgateway.Prelude.{
  none, some, true, false, ok, err, Result, String, Option, Bool, Error, if◌then◌else◌, List, ◌>>=◌,
  nat_beq, invalid_cidr, not, ◌∷◌, ◌&&◌, invalid_ip, length, [], ◌==◌,
}
use egressgateway.Ip.Address.{nil, v4, v6, Ip, IpNet, is_to4}
use egressgateway.Ip.Text.{NetText}
use egressgateway.Prelude.Sort.{sort_strings}

-- constant.InvalidIPFormat
abbrev pub invalid_format : {A : Type 0} → Result A
invalid_format = err (Error.message "invalid ip format")

-- strings.Contains(s, ".")
unfoldable pub has_dot : String → Bool
has_dot String.[] = false
has_dot (String.◌∷◌ c s) = let rest = has_dot s in if nat_beq (code c) b'.' then true else rest

-- the error is dropped: `isIPv4, _ :=`
abbrev pub or_false : Result Bool → Bool
or_false (ok b) = b
or_false _ = false

abbrev pub valid : Option (Ip × IpNet) → Result IpNet
valid none = err invalid_cidr
valid (some p) = ok p.1

-- `if c { res = append(res, s) }`, at the front of what follows
abbrev pub cons_if : Bool → String → List String → List String
cons_if c s rest = if c then s ∷ rest else rest

module _ (t : NetText) where
  -- net.ParseIP, nil as an error
  abbrev pub parsed : String → Result Ip
  parsed s = elim (t.parse_ip s) [ nil ↦ invalid_format | v4 n ↦ ok (v4 n) | v6 n ↦ ok (v6 n) ]

  -- IsIPv4
  unfoldable pub is_ipv4 : String → Result Bool
  is_ipv4 ip = parsed ip >>= λ net_ip. ok (is_to4 net_ip)

  -- IsIPv6
  unfoldable pub is_ipv6 : String → Result Bool
  is_ipv6 ip = parsed ip >>= λ net_ip. ok (not (is_to4 net_ip))

  -- GetIPV4V6
  unfoldable pub get_ipv4v6 : List String → Result (List String × List String)
  unfolding is_ipv4 is_ipv6
  get_ipv4v6 [] = ok ([], [])
  get_ipv4v6 (ip ∷ ips) =
      let rest = get_ipv4v6 ips in
      elim (t.parse_ip ip) [
        | nil ↦ err invalid_ip
        | _ ↦ rest >>= λ r.
            ok (cons_if (or_false (is_ipv4 ip)) ip r.0, cons_if (or_false (is_ipv6 ip)) ip r.1)
      ]

  -- IsIPv4Cidr
  unfoldable pub is_ipv4_cidr : String → Result Bool
  is_ipv4_cidr cidr = valid (t.parse_cidr cidr) >>= λ net. ok (is_to4 net.ip && nat_beq net.bits 32)

  abbrev pub is_some_ip : Ip → Bool
  is_some_ip nil = false
  is_some_ip (v4 n) = true
  is_some_ip (v6 n) = true

  -- IsIPv6Cidr
  unfoldable pub is_ipv6_cidr : String → Result Bool
  is_ipv6_cidr cidr =
      valid (t.parse_cidr cidr) >>= λ net. ok (is_some_ip net.ip && nat_beq net.bits 128)

  -- GetIPV4V6Cidr
  unfoldable pub get_ipv4v6_cidr : List String → Result (List String × List String)
  unfolding is_ipv4_cidr is_ipv6_cidr has_dot
  get_ipv4v6_cidr [] = ok ([], [])
  get_ipv4v6_cidr (cidr ∷ cidrs) =
      let rest = get_ipv4v6_cidr cidrs in
      if has_dot cidr
      then (is_ipv4_cidr cidr >>= λ c. rest >>= λ r. ok (cons_if c cidr r.0, r.1))
      else (is_ipv6_cidr cidr >>= λ c. rest >>= λ r. ok (r.0, cons_if c cidr r.1))

  unfoldable pub ip_texts_of : List String → Result (List String)
  ip_texts_of [] = ok []
  ip_texts_of (ip ∷ ips) =
      let rest = ip_texts_of ips in
      parsed ip >>= λ net_ip. rest >>= λ r. ok (t.ip_string net_ip ∷ r)

  -- SortIPs
  unfoldable pub sort_ip_texts : List String → Result (List String)
  unfolding ip_texts_of
  sort_ip_texts ips = ip_texts_of ips >>= λ texts. ok (sort_strings texts)

  unfoldable pub cidr_texts_of : (IpNet → String) → List String → Result (List String)
  cidr_texts_of net_string [] = ok []
  cidr_texts_of net_string (cidr ∷ cidrs) =
      let rest = cidr_texts_of net_string cidrs in
      valid (t.parse_cidr cidr) >>= λ net. rest >>= λ r. ok (net_string net ∷ r)

  -- SortIPCidrs; String of net.IPNet is an argument
  unfoldable pub sort_ip_cidrs : (IpNet → String) → List String → Result (List String)
  unfolding cidr_texts_of
  sort_ip_cidrs net_string cidrs =
      cidr_texts_of net_string cidrs >>= λ texts. ok (sort_strings texts)

  abbrev pub same_texts : List String → List String → Bool
  same_texts [] [] = true
  same_texts (x ∷ a) (y ∷ b) = let rest = same_texts a b in if x == y then rest else false
  same_texts _ _ = false

  -- IsSameIPs
  unfoldable pub is_same_ips : List String → List String → Result Bool
  unfolding sort_ip_texts
  is_same_ips a b =
      if nat_beq (length a) (length b)
      then (sort_ip_texts a >>= λ sorted_a.
          sort_ip_texts b >>= λ sorted_b. ok (same_texts sorted_a sorted_b))
      else ok false

  -- IsSameIPCidrs
  unfoldable pub is_same_ip_cidrs : (IpNet → String) → List String → List String → Result Bool
  unfolding sort_ip_cidrs
  is_same_ip_cidrs net_string a b =
      if nat_beq (length a) (length b)
      then (sort_ip_cidrs net_string a >>= λ sorted_a.
          sort_ip_cidrs net_string b >>= λ sorted_b. ok (same_texts sorted_a sorted_b))
      else ok false
