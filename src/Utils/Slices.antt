-- ===== src/Utils/Slices.antt =====
-- pkg/utils/list.go, pkg/utils/slice/slice.go and pkg/utils/node.go.
use egressgateway.Ip.Families
use egressgateway.Ip.Families.{or_false}
use egressgateway.Prelude.{
  none, some, true, false, String, List, ℕ, ◌∷◌, Bool, if◌then◌else◌, ◌+◌, ◌-◌, Option, ◌++◌, ◌==◌,
  nat_beq, [], length,
}
use egressgateway.Ip.Text.{NetText}
use egressgateway.Endpoint.Slices.{take, drop}

-- a map from texts to numbers; a text that is missing reads as 0
abbrev pub CountMap : Type 0
CountMap = String → ℕ

abbrev pub put : String → ℕ → CountMap → CountMap
put v n m s = if s == v then n else m s

-- the loop over the first list, which counts
unfoldable pub count_all : CountMap → List String → CountMap
count_all m [] = m
count_all m (v ∷ a) = count_all (put v (m v + 1) m) a

-- the loop over the second one, which counts down
unfoldable pub take_all : CountMap → List String → Bool
take_all m [] = true
take_all m (v ∷ b) =
    let rest = take_all (put v (m v - 1) m) b in if nat_beq (m v) 0 then false else rest

-- EqualStringSlice
unfoldable pub equal_string_slice : List String → List String → Bool
unfolding count_all take_all
equal_string_slice a b =
    if nat_beq (length a) (length b) then take_all (count_all (λ s. 0) a) b else false

-- indexOf, from the index on; none for -1
unfoldable pub index_of : String → ℕ → List String → Option ℕ
index_of element i [] = none
index_of element i (v ∷ rest) =
    let later = index_of element (i + 1) rest in if v == element then some i else later

-- RemoveElement
unfoldable pub remove_element : List String → String → List String
unfolding index_of
remove_element slice element = elim (index_of element 0 slice) [
  | none ↦ slice
  | some i ↦ take i slice ++ drop (i + 1) slice
]

-- v1.NodeAddress
pub record NodeAddress : Type 0 where
  pub type : String
  pub address : String

-- GetNodeIP: the last internal address of each version
unfoldable pub get_node_ip : NetText → String × String → List NodeAddress → String × String
get_node_ip t ips [] = ips
get_node_ip t ips (a ∷ addresses) =
    get_node_ip t
      (if a.type == "InternalIP"
        then (
          if or_false (Families.is_ipv4 t a.address) then a.address else ips.0,
          if or_false (Families.is_ipv6 t a.address) then a.address else ips.1,
        )
        else ips)
      addresses
