-- ===== src/Gateway/Fresh.antt =====
-- Proofs on the choice of a free address in assignIP (pkg/egressgateway/egress_gateway.go).
use egressgateway.Prelude.{
  ℕ, zero, suc, ◌<◌, ◌^◌, String, ◌≡◌, refl, ap, sym, ◌∙◌, true, false, ◌==◌, eq_iff, List, [], ◌∷◌,
  map, ◌⊎◌, inl, inr, some, arith, get_elem?, length, All, ok, err, not_enough_ip, Bool-cases,
  nat_beq,
}
use egressgateway.Ip.Address.{Ip, nil, v4, v6}
use egressgateway.Ip.Text.{NetText, IsNetText, Host, IsHost}
use egressgateway.Ip.Range.{has_mark, parse_ip_ranges, ips_diff_set}
use egressgateway.Ip.Diff.{is_named, diff_keys, has_mark-diff_keys, ips_diff_set_lem}
use egressgateway.Gateway.Pool.{pick_free, free_address}

-- an IPv4 address
abbrev pub IsV4 : Ip → Type 0
IsV4 (v4 n) = n < 2 ^ 32
IsV4 _ = ⊥

module _ (t : NetText) (law : IsNetText t) where
  -- a text that names an address of a list of IPv4 addresses is read as that address
  is_named-IsV4 :
      (k : String) (ips : List Ip)
      → All IsV4 ips
      → is_named t k ips ≡ true
      → (n : ℕ) × (t.parse_ip k ≡ v4 n) × (t.ip_string (v4 n) ≡ k)
  unfolding is_named
  is_named-IsV4 k [] all h = cc
  is_named-IsV4 k (nil ∷ ips) (a, all) h = absurd a
  is_named-IsV4 k (v6 n ∷ ips) (a, all) h = absurd a
  is_named-IsV4 k (v4 n ∷ ips) (a, all) h = elim (Bool-cases (k == t.ip_string (v4 n))) [
    | inr f ↦ is_named-IsV4 k ips all (ground arith)
    | inl e ↦
        let same : k ≡ t.ip_string (v4 n) = ground (arith, eq_iff k (t.ip_string (v4 n))) in
        (n, ap t.parse_ip same ∙ law.parse_string_v4 n a, sym same)
  ]

  is_named-tail :
      (k : String) (a : Ip) (ips : List Ip)
      → is_named t k (a ∷ ips) ≡ false
      → is_named t k ips ≡ false
  unfolding is_named
  is_named-tail k nil ips h = h
  is_named-tail k (v4 n) ips h = ground arith
  is_named-tail k (v6 n) ips h = ground arith

  is_named-head : (n : ℕ) (ips : List Ip) → is_named t (t.ip_string (v4 n)) (v4 n ∷ ips) ≡ true
  unfolding is_named
  is_named-head n ips = ground (arith, eq_iff (t.ip_string (v4 n)) (t.ip_string (v4 n)))

  -- and if none of the addresses that are read from some texts has that text, it is not among them
  is_named-used :
      (k : String) (n : ℕ) (used : List String)
      → t.parse_ip k ≡ v4 n
      → t.ip_string (v4 n) ≡ k
      → is_named t k (map t.parse_ip used) ≡ false
      → has_mark k used ≡ false
  unfolding is_named has_mark
  is_named-used k n [] p s h = refl
  is_named-used k n (u ∷ used) p s h = elim (Bool-cases (k == u)) [
    | inr f ↦
        let rest = is_named-tail k (t.parse_ip u) (map t.parse_ip used) h in
        ground (arith, is_named-used k n used p s rest)
    | inl e ↦
        let same : k ≡ u = ground (arith, eq_iff k u) in
        let here : t.parse_ip u ≡ v4 n = ap t.parse_ip (sym same) ∙ p in
        ground (
          arith,
          ap (λ x. is_named t k (x ∷ map t.parse_ip used)) here,
          ap (λ x. is_named t x (v4 n ∷ map t.parse_ip used)) s,
          is_named-head n (map t.parse_ip used),
        )
  ]

get_elem?-in {ℓ} :
    {A : Type ℓ} (xs : List A) (i : ℕ) → i < length xs → (x : A) × (get_elem? xs i ≡ some x)
get_elem?-in [] i h = absurd (omega arith)
get_elem?-in (x ∷ xs) zero h = (x, refl)
get_elem?-in (x ∷ xs) (suc i) h = get_elem?-in xs i (omega arith)

length-map : (f : String → Ip) (xs : List String) → length (map f xs) ≡ length xs
length-map f [] = refl
length-map f (x ∷ xs) = ap suc (length-map f xs)

none_marked : (k : String) (xs : List String) → length xs ≡ 0 → has_mark k xs ≡ false
unfolding has_mark
none_marked k [] h = refl
none_marked k (x ∷ xs) h = absurd (omega arith)

module _ (h : Host) (law : IsHost h) (version : ℕ) (ranges used : List String) (ips : List Ip) where
  abbrev parsed : List Ip
  parsed = map h.text.parse_ip used

  no_free :
      length (ips_diff_set h ips parsed false) ≡ 0
      → (k : String) → is_named h.text k ips ≡ true
      → is_named h.text k parsed ≡ true
  unfolding ips_diff_set
  no_free e k named =
      let keys = diff_keys h law.is_runtime ips parsed in
      ground (
        arith,
        none_marked k keys (sym (length-map h.text.parse_ip keys) ∙ e),
        has_mark-diff_keys h law.is_runtime ips parsed k,
      )

  -- Of a pool of IPv4 addresses, the address that assignIP chooses is the text of an address of
  -- the pool and is not among the addresses in use; and it fails, for want of addresses, only if
  -- each text that names an address of the pool names one of the addresses in use.
  pub free_address_lem :
      parse_ip_ranges h version ranges ≡ ok ips
      → All IsV4 ips
      → ((free_address h version ranges used ≡ err not_enough_ip)
          × ((k : String) → is_named h.text k ips ≡ true → is_named h.text k parsed ≡ true))
        ⊎ ((a : String) × (free_address h version ranges used ≡ ok a)
            × (is_named h.text a ips ≡ true)
            × (has_mark a used ≡ false))
  unfolding free_address pick_free
  free_address_lem p all =
      let free = ips_diff_set h ips parsed false in
      elim (Bool-cases (nat_beq (length free) 0)) [
        | inl z ↦ inl (ground arith, no_free (ground arith))
        | inr nz ↦
            let i = h.runtime.intn (length free) in
            let below : i < length free = law.is_runtime.intn_lt (length free) (ground arith) in
            let (ip, at) = get_elem?-in free i below in
            let (k, e, in_pool, not_used) = ips_diff_set_lem h law.is_runtime ips parsed i ip at in
            let (n, read, written) = is_named-IsV4 h.text law.is_text k ips all in_pool in
            let text : h.text.ip_string ip ≡ k = ap h.text.ip_string (e ∙ read) ∙ written in
            inr (
              k,
              ground arith,
              in_pool,
              is_named-used h.text law.is_text k n used read written not_used,
            )
      ]
