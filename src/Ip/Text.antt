-- ===== src/Ip/Text.antt =====
-- The texts of addresses, as an interface: net.ParseIP, IP.String and net.ParseCIDR of Go's net
-- package and govalidator's IsIPv4 and IsIPv6 (vendor/github.com/asaskevich/govalidator), with
-- what the code relies on; and what the Go runtime leaves open.
use mathlib.Core.List.{List, Perm}
use egressgateway.Prelude.{ℕ, String, ◌≡◌, ◌<◌, ◌^◌, Bool, Option}
use egressgateway.Prelude.Split.{split}
use egressgateway.Ip.Address.{Ip, IpNet, v4}

-- strings.Split(s, "-")
abbrev pub split_dash : String → List String
split_dash s = split b'-' s

pub record NetText : Type 0 where
  pub parse_ip : String → Ip
  pub ip_string : Ip → String
  pub parse_cidr : String → Option (Ip × IpNet)
  pub is_ipv4 : String → Bool
  pub is_ipv6 : String → Bool

-- ParseIP reads what String writes of an IPv4 address.
pub record IsNetText (t : NetText) : Type 0 where
  pub parse_string_v4 : (n : ℕ) → n < 2 ^ 32 → t.parse_ip (t.ip_string (v4 n)) ≡ v4 n

-- What Go leaves open: the order in which `range` visits the keys of a map, and rand.Intn.
pub record Runtime : Type 0 where
  pub range_keys : List String → List String
  pub intn : ℕ → ℕ

pub record IsRuntime (r : Runtime) : Type 0 where
  pub range_perm : (keys : List String) → Perm (r.range_keys keys) keys
  pub intn_lt : (n : ℕ) → 0 < n → r.intn n < n

-- What the package's functions run on; a loop that may not end takes the fuel.
pub record Host : Type 0 where
  pub text : NetText
  pub runtime : Runtime
  pub fuel : ℕ

pub record IsHost (h : Host) : Type 0 where
  pub is_text : IsNetText h.text
  pub is_runtime : IsRuntime h.runtime
