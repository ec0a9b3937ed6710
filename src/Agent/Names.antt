-- ===== src/Agent/Names.antt =====
-- The names of the sets of a policy, of pkg/agent/police.go.
use Prim.Native.String.{◌++◌}
use mathlib.Core.List as L
use mathlib.Core.List.{List, [], ◌∷◌}
use egressgateway.Prelude.{ℕ, zero, suc, ◌-◌, String, Bool, ◌==◌, if◌then◌else◌}

pub data IpStack : Type 0 where
  ipv4 ipv6 : IpStack

pub data IpKind : Type 0 where
  src dst : IpKind

pub record SetName : Type 0 where
  pub name : String
  pub stack : IpStack
  pub kind : IpKind

abbrev pub hash_family : IpStack → String
hash_family IpStack.ipv4 = "inet"
hash_family IpStack.ipv6 = "inet6"

-- the length of a text, and its first characters
unfoldable pub text_length : String → ℕ
text_length String.[] = zero
text_length (String.◌∷◌ c s) = suc (text_length s)

unfoldable pub take_text : ℕ → String → String
take_text zero s = String.[]
take_text (suc n) String.[] = String.[]
take_text (suc n) (String.◌∷◌ c s) = String.◌∷◌ c (take_text n s)

-- formatIPSetName; sha1 gives the hash in hexadecimal digits, which are more than 31, and no prefix
-- is longer than that
unfoldable pub format_ipset_name : (String → String) → String → String → String
unfolding text_length take_text
format_ipset_name sha1 prefix name = prefix ++ take_text (31 - text_length prefix) (sha1 name)

-- a policy's name with its namespace
abbrev pub policy_name : String → String → String
policy_name ns name = if ns == "" then name else ns ++ ("-" ++ name)

-- buildIPSetNamesByPolicy
unfoldable pub build_ipset_names_by_policy :
    (String → String) → String → String → Bool → Bool → List SetName
unfolding format_ipset_name
build_ipset_names_by_policy sha1 ns name enable_ipv4 enable_ipv6 =
    let full = policy_name ns name in
    let named = format_ipset_name sha1 in
    (L.◌++◌
      (if enable_ipv4
        then record { name = named "egress-src-v4-" full; stack = IpStack.ipv4; kind = src }
          ∷ record { name = named "egress-dst-v4-" full; stack = IpStack.ipv4; kind = dst }
          ∷ []
        else [])
      (if enable_ipv6
        then record { name = named "egress-src-v6-" full; stack = IpStack.ipv6; kind = src }
          ∷ record { name = named "egress-dst-v6-" full; stack = IpStack.ipv6; kind = dst }
          ∷ []
        else []))
