-- ===== src/Ip/Address.antt =====
-- pkg/utils/ip/ip.go: addresses, their order and their successor.
-- `net.IP` is a slice of bytes. Its methods String, To4, Equal and the comparison of To16 see a
-- 4-byte slice and the 16-byte form of the same address alike, so an address is its family and
-- its number; `nil` is the slice that is no address.
use egressgateway.Prelude.{
  ℕ, ◌+◌, ◌-◌, ◌*◌, ◌/◌, ◌%◌, ◌^◌, Bool, true, false, List, [], ◌∷◌, ◌&&◌, ltb, leb, nat_beq,
  if◌then◌else◌,
}
use egressgateway.Prelude.Int.{ℤ, pos, negsuc}

pub data Ip : Type 0 where
  nil : Ip
  v4 : ℕ → Ip
  v6 : ℕ → Ip

-- net.IPNet: the network's address, and the lengths of its mask in ones and in bits
pub record IpNet : Type 0 where
  pub ip : Ip
  pub ones : ℕ
  pub bits : ℕ

-- A 16-byte slice is an IPv4 address when it begins with ten zero bytes and two bytes 0xff.
abbrev pub of_16_bytes : ℕ → Ip
of_16_bytes n = if nat_beq (n / 2 ^ 32) 0xffff then v4 (n % 2 ^ 32) else v6 n

-- ip.To4() != nil
abbrev pub is_to4 : Ip → Bool
is_to4 nil = false
is_to4 (v4 n) = true
is_to4 (v6 n) = false

-- ip1.Equal(ip2)
abbrev pub ip_equal : Ip → Ip → Bool
ip_equal nil nil = true
ip_equal (v4 a) (v4 b) = nat_beq a b
ip_equal (v6 a) (v6 b) = nat_beq a b
ip_equal _ _ = false

-- ipToInt: the bytes of To4, or else of To16 (which is nil for nil), as a big-endian number
unfoldable pub ip_to_int : Ip → ℕ
ip_to_int nil = 0
ip_to_int (v4 n) = n
ip_to_int (v6 n) = n

-- intToIP: `Bytes()` has no leading zero bytes, and To16 is nil unless 4 or 16 bytes are left
unfoldable pub int_to_ip : ℕ → Ip
int_to_ip i =
    if leb (2 ^ 24) i && ltb i (2 ^ 32)
    then v4 i
    else if leb (2 ^ 120) i && ltb i (2 ^ 128)
    then of_16_bytes i
    else nil

-- NextIP
unfoldable pub next_ip : Ip → Ip
unfolding ip_to_int int_to_ip
next_ip ip = int_to_ip (ip_to_int ip + 1)

-- Cmp: -1, 0 or 1
unfoldable pub cmp : Ip → Ip → ℤ
unfolding ip_to_int
cmp ip1 ip2 =
    if ltb (ip_to_int ip1) (ip_to_int ip2)
    then negsuc 0
    else if nat_beq (ip_to_int ip1) (ip_to_int ip2)
    then pos 0
    else pos 1

-- Cmp(ip1, ip2) <= 0
abbrev pub cmp_le : Ip → Ip → Bool
cmp_le ip1 ip2 = elim (cmp ip1 ip2) [ negsuc n ↦ true | pos n ↦ nat_beq n 0 ]

-- Cmp(ip1, ip2) == 1
abbrev pub cmp_is_one : Ip → Ip → Bool
cmp_is_one ip1 ip2 = elim (cmp ip1 ip2) [ negsuc n ↦ false | pos n ↦ nat_beq n 1 ]

-- ipnet.Contains(ip)
unfoldable pub contains : IpNet → Ip → Bool
contains net nil = false
contains net (v4 n) = elim net.ip [
  | v4 b ↦ nat_beq (n / 2 ^ (net.bits - net.ones)) (b / 2 ^ (net.bits - net.ones))
  | _ ↦ false
]
contains net (v6 n) = elim net.ip [
  | v6 b ↦ nat_beq (n / 2 ^ (net.bits - net.ones)) (b / 2 ^ (net.bits - net.ones))
  | _ ↦ false
]

-- ip.Mask(ipnet.Mask)
unfoldable pub mask_ip : Ip → IpNet → Ip
mask_ip nil net = nil
mask_ip (v4 n) net = v4 (n / 2 ^ (net.bits - net.ones) * 2 ^ (net.bits - net.ones))
mask_ip (v6 n) net = of_16_bytes (n / 2 ^ (net.bits - net.ones) * 2 ^ (net.bits - net.ones))

-- incrementIP on the bytes of an address, the last byte first: `ip[j]++` wraps around at 256
unfoldable pub increment_bytes : List ℕ → List ℕ
increment_bytes [] = []
increment_bytes (b ∷ bytes) =
    let b' = (b + 1) % 256 in if ltb 0 b' then b' ∷ bytes else b' ∷ increment_bytes bytes

-- The number of such bytes.
unfoldable pub of_bytes : List ℕ → ℕ
of_bytes [] = 0
of_bytes (b ∷ bytes) = b + 256 * of_bytes bytes

-- incrementIP on an address
unfoldable pub increment_ip : Ip → Ip
increment_ip nil = nil
increment_ip (v4 n) = v4 ((n + 1) % 2 ^ 32)
increment_ip (v6 n) = of_16_bytes ((n + 1) % 2 ^ 128)

-- The order of bytes.Compare(ip.To16(), ·): nil comes first, and the 16-byte form of an IPv4
-- address is 0xffff in front of it.
unfoldable pub sort_key : Ip → ℕ
sort_key nil = 0
sort_key (v4 n) = 1 + 0xffff * 2 ^ 32 + n
sort_key (v6 n) = 1 + n

-- sort.Slice by that order, of addresses that differ
unfoldable pub insert_ip : Ip → List Ip → List Ip
insert_ip ip [] = ip ∷ []
insert_ip ip (x ∷ xs) = if ltb (sort_key x) (sort_key ip) then x ∷ insert_ip ip xs else ip ∷ x ∷ xs

unfoldable pub sort_ips : List Ip → List Ip
unfolding insert_ip sort_key
sort_ips [] = []
sort_ips (x ∷ xs) = insert_ip x (sort_ips xs)
