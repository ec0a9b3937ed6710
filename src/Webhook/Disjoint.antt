-- ===== src/Webhook/Disjoint.antt =====
-- Proofs on the addresses of the gateways that EgressGatewayValidate of
-- pkg/egressgateway/egress_gateway_webhook.go accepts: no other gateway has one of them.
use egressgateway.Prelude.{
  ok, err, panic, no_fuel, true, false, refl, sym, ap, ◌∙◌, inl, inr, ℕ, String, Bool, List, ◌==◌,
  ◌≡◌, ◌≢◌, ◌⊎◌, Bool-cases, All, arith, ◌∷◌, >>=-eq-ok, ◌>>=◌, [], ◌++◌, Result, eq_iff,
}
use egressgateway.Ip.Address.{Ip}
use egressgateway.Ip.Range.{ipv4, ipv6, parse_ip_ranges}
use egressgateway.Ip.Merge.{merge_ip_ranges}
use egressgateway.Ip.Text.{Host}
use egressgateway.Api.{EgressGateway, Ippools}
use egressgateway.Webhook.Requests.{
  WebhookClient, WebhookConfig, Operation, is_delete, or_denied, call_or_denied,
}
use egressgateway.Webhook.GatewayChecks.{
  Pool, pool_of, parsed_if, ip_texts, build_cluster_ip_map, has_text, in_cluster, has_duplicate,
  check_dup_ip, check_duplicates, egress_gateway_validate,
}
use egressgateway.Webhook.Accepted.{request}
use egressgateway.Webhook.Pools.{after-ok, ok-inj, validate-pool, check_pool-parts}

or_denied-ok :
    {A : Type 0} (text : String) (r : Result A) {a : A} → or_denied text r ≡ ok a → r ≡ ok a
or_denied-ok text (ok b) e = e
or_denied-ok text (err x) e = cc
or_denied-ok text panic e = cc
or_denied-ok text no_fuel e = cc

-- the parts of a run that reads two lists of ranges and their addresses
four-parts :
    {A B C D P : Type 0} (a : Result A) (b : Result B) (c : A → Result C) (d : B → Result D)
    (last : A → B → C → D → Result P) {p : P}
    → (a >>= λ x. b >>= λ y. c x >>= λ z. d y >>= λ w. last x y z w) ≡ ok p
    → (x : A) × (y : B) × (z : C) × (w : D) × (a ≡ ok x)
      × (b ≡ ok y)
      × (c x ≡ ok z)
      × (d y ≡ ok w)
      × (last x y z w ≡ ok p)
four-parts a b c d last e =
    let (x, first, e1) = >>=-eq-ok a _ e in
    let (y, second, e2) = >>=-eq-ok b _ e1 in
    let (z, third, e3) = >>=-eq-ok (c x) _ e2 in
    let (w, fourth, e4) = >>=-eq-ok (d y) _ e3 in (x, y, z, w, first, second, third, fourth, e4)

module _ (h : Host) where
  -- the addresses of a version that a pool's texts stand for
  abbrev pub Addresses : ℕ → List String → List Ip → Type 0
  Addresses version texts ips =
      (ranges : List String) × (merge_ip_ranges h version texts ≡ ok ranges)
      × (parse_ip_ranges h version ranges ≡ ok ips)

  -- addresses of which none has a text that an address of the gateway has
  abbrev pub Apart : List Ip → EgressGateway → Type 0
  Apart ips item =
      (v4s v6s : List Ip) × Addresses ipv4 item.spec.ippools.ipv4 v4s
      × Addresses ipv6 item.spec.ippools.ipv6 v6s
      × All (λ ip. All (λ other. h.text.ip_string ip ≢ h.text.ip_string other) (v4s ++ v6s)) ips

  has_text-absent :
      (addr : String) (ips : List Ip)
      → has_text h addr (ip_texts h ips) ≡ false
      → All (λ other. addr ≢ h.text.ip_string other) ips
  unfolding has_text
  has_text-absent addr [] e = tt
  has_text-absent addr (ip ∷ ips) e = (
    λ k. absurd (ground (arith, e, (eq_iff (h.text.ip_string ip) addr).1 (sym k))),
    has_text-absent addr ips (ground (arith, e)),
  )

  ip_texts-append : (xs ys : List Ip) → ip_texts h (xs ++ ys) ≡ ip_texts h xs ++ ip_texts h ys
  ip_texts-append [] ys = refl
  ip_texts-append (x ∷ xs) ys = ap (λ ss. h.text.ip_string x ∷ ss) (ip_texts-append xs ys)

  -- addresses that the map does not have are apart from the first gateway, and not in the others
  has_duplicate-first :
      (ips others : List Ip) (name : String) (gws : List (String × List String))
      → has_duplicate h ips ((name, ip_texts h others) ∷ gws) ≡ false
      → All (λ ip. All (λ other. h.text.ip_string ip ≢ h.text.ip_string other) others) ips
        × (has_duplicate h ips gws ≡ false)
  unfolding has_duplicate in_cluster
  has_duplicate-first [] others name gws e = (tt, refl)
  has_duplicate-first (ip ∷ ips) others name gws e =
      let (apart, none_in) = has_duplicate-first ips others name gws (ground (arith, e)) in
      (
        (has_text-absent (h.text.ip_string ip) others (ground (arith, e)), apart),
        ground (arith, e, none_in),
      )

  build_cluster_ip_map-Apart :
      (items : List EgressGateway) (skip_name : String) (gws : List (String × List String))
      → build_cluster_ip_map h items skip_name ≡ ok gws
      → (ips : List Ip) → has_duplicate h ips gws ≡ false
      → All (λ item. (item.meta.name ≡ skip_name) ⊎ Apart ips item) items
  unfolding build_cluster_ip_map
  build_cluster_ip_map-Apart [] skip_name gws b ips e = tt
  build_cluster_ip_map-Apart (item ∷ items) skip_name gws b ips e =
      elim (Bool-cases (item.meta.name == skip_name)) [
        | inl same ↦ (
          inl ((eq_iff item.meta.name skip_name).0 same),
          build_cluster_ip_map-Apart items skip_name gws (rw same at b) ips e,
        )
        | inr other ↦
            let (r4, r6, v4s, v6s, m4, m6, p4, p6, more) =
              four-parts (merge_ip_ranges h ipv4 item.spec.ippools.ipv4)
                (merge_ip_ranges h ipv6 item.spec.ippools.ipv6) (parse_ip_ranges h ipv4)
                (parse_ip_ranges h ipv6)
                (λ x y v4s v6s. build_cluster_ip_map h items skip_name >>= λ gws'.
                  ok ((item.meta.name, ip_texts h v4s ++ ip_texts h v6s) ∷ gws'))
                (rw other at b) in
            let (rest, b', k5) = >>=-eq-ok (build_cluster_ip_map h items skip_name) _ more in
            let texts : (item.meta.name, ip_texts h (v4s ++ v6s)) ∷ rest ≡ gws =
              ap (λ ss. (item.meta.name, ss) ∷ rest) (ip_texts-append v4s v6s) ∙ ok-inj k5 in
            let (apart, none_in) =
              has_duplicate-first ips (v4s ++ v6s) item.meta.name rest
                (ap (has_duplicate h ips) texts ∙ e) in
            (
              inr (v4s, v6s, (r4, m4, p4), (r6, m6, p6), apart),
              build_cluster_ip_map-Apart items skip_name rest b' ips none_in,
            )
      ]

  parsed-same :
      (version : ℕ) (texts ranges : List String) (ips read : List Ip) (enabled : Bool)
      → enabled ≡ true
      → Addresses version texts ips
      → or_denied "Failed to check IP" (merge_ip_ranges h version texts) ≡ ok ranges
      → or_denied "Failed to check IP" (parsed_if h enabled version ranges) ≡ ok read
      → read ≡ ips
  parsed-same version texts ranges ips read enabled on (r, m, p) m' p' =
      let same : ranges ≡ r =
        ok-inj (sym (or_denied-ok _ (merge_ip_ranges h version texts) m') ∙ m) in
      let there : or_denied "Failed to check IP" (parsed_if h true version ranges) ≡ ok read =
        rw on at p' in
      ok-inj (
        sym (or_denied-ok _ (parse_ip_ranges h version ranges) there)
        ∙ ap (parse_ip_ranges h version) same
        ∙ p)

  -- the pool that is read has the addresses of its texts
  pool_of-Addresses :
      (cfg : WebhookConfig) (pools : Ippools) (pool : Pool)
      → pool_of h cfg pools ≡ ok pool
      → (ips : List Ip)
      → (cfg.enable_ipv4 ≡ true → Addresses ipv4 pools.ipv4 ips → pool.ipv4s ≡ ips)
        × (cfg.enable_ipv6 ≡ true → Addresses ipv6 pools.ipv6 ips → pool.ipv6s ≡ ips)
  unfolding pool_of
  pool_of-Addresses cfg pools pool e ips =
      let (r4, r6, v4s, v6s, m4, m6, p4, p6, same) =
        four-parts (or_denied "Failed to check IP" (merge_ip_ranges h ipv4 pools.ipv4))
          (or_denied "Failed to check IP" (merge_ip_ranges h ipv6 pools.ipv6))
          (λ r. or_denied "Failed to check IP" (parsed_if h cfg.enable_ipv4 ipv4 r))
          (λ r. or_denied "Failed to check IP" (parsed_if h cfg.enable_ipv6 ipv6 r))
          (λ x y z w. ok (record { ipv4_ranges = x; ipv6_ranges = y; ipv4s = z; ipv6s = w })) e in
      (
        λ on at.
            ap (λ (q : Pool). q.ipv4s) (sym (ok-inj same))
            ∙ parsed-same ipv4 pools.ipv4 r4 ips v4s cfg.enable_ipv4 on at m4 p4,
        λ on at.
            ap (λ (q : Pool). q.ipv6s) (sym (ok-inj same))
            ∙ parsed-same ipv6 pools.ipv6 r6 ips v6s cfg.enable_ipv6 on at m6 p6,
      )

  module _ {S : Type 0} (client : WebhookClient S) (cfg : WebhookConfig) where
    check_duplicates-parts :
        (eg : EgressGateway) (pool : Pool) (items : List EgressGateway) (t u : S)
        → (client.list_gateways t).0 ≡ ok items
        → check_duplicates h client cfg eg pool t ≡ (ok tt, u)
        → (gws : List (String × List String)) × (build_cluster_ip_map h items eg.meta.name ≡ ok gws)
          × (has_duplicate h pool.ipv4s gws ≡ false)
          × (has_duplicate h pool.ipv6s gws ≡ false)
    unfolding check_duplicates check_dup_ip
    check_duplicates-parts eg pool items t u l e =
        let (found, s1, listed, checked) =
          after-ok (call_or_denied "Failed to get EgressGatewayList" client.list_gateways t) _ tt u
            e in
        let same : found ≡ items =
          ok-inj (sym (or_denied-ok _ (client.list_gateways t).0 (ap (λ q. q.0) listed)) ∙ l) in
        let (gws, built, fresh) =
          >>=-eq-ok
            (or_denied "Failed to build cluster EgressGateway IP map"
              (build_cluster_ip_map h found eg.meta.name))
            _ (ap (λ q. q.0) checked) in
        (
          gws,
          ap (λ x. build_cluster_ip_map h x eg.meta.name) (sym same) ∙ or_denied-ok _ _ built,
          ground (arith, fresh),
          ground (arith, fresh),
        )

    -- When the webhook accepts a gateway that is created or updated, while the server lists the
    -- gateways, then the pool of each listed gateway of another name is read, and none of its
    -- addresses, of either version, has the text of an address of the accepted gateway's pool, of a
    -- version that is enabled.
    pub egress_gateway_validate-disjoint :
        (operation : Operation) (name : String) (eg raw : EgressGateway)
        (items : List EgressGateway) (ips : List Ip) (s s' : S)
        → is_delete operation ≡ false
        → ((t : S) → (client.list_gateways t).0 ≡ ok items)
        → egress_gateway_validate h client cfg (request operation name eg raw) s ≡ (ok tt, s')
        → ((cfg.enable_ipv4 ≡ true) × Addresses ipv4 eg.spec.ippools.ipv4 ips)
          ⊎ ((cfg.enable_ipv6 ≡ true) × Addresses ipv6 eg.spec.ippools.ipv6 ips)
        → All (λ item. (item.meta.name ≡ eg.meta.name) ⊎ Apart ips item) items
    egress_gateway_validate-disjoint operation name eg raw items ips s s' d l e mine =
        let req = request operation name eg raw in
        let (pool, t, read, passed) = validate-pool h client cfg operation name eg raw s s' d e in
        let (s1, s2, fresh, kept) = check_pool-parts h client cfg req eg pool t s' passed in
        let (gws, built, no_v4, no_v6) = check_duplicates-parts eg pool items s1 s2 (l s1) fresh in
        let same = pool_of-Addresses cfg eg.spec.ippools pool read ips in
        build_cluster_ip_map-Apart items eg.meta.name gws built ips (elim mine [
          | inl (on, at) ↦ ap (λ x. has_duplicate h x gws) (sym (same.0 on at)) ∙ no_v4
          | inr (on, at) ↦ ap (λ x. has_duplicate h x gws) (sym (same.1 on at)) ∙ no_v6
        ])
