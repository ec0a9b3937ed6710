-- ===== src/Agent/Routes.antt =====
-- pkg/agent/route/route.go: the rules and the routes of the marks. netlink is a parameter.
use egressgateway.Prelude.{
  ℕ, String, Bool, true, false, not, ◌&&◌, ◌||◌, ◌==◌, if◌then◌else◌, List, [], ◌∷◌, Option, none,
  some,
}
use egressgateway.Prelude.Int.{ℤ, pos, int_eq, int_leb}
use egressgateway.Ip.Address.{Ip}
use egressgateway.Ip.Text.{NetText}
use egressgateway.MarkAllocator.Range.{to_int}
use egressgateway.MarkAllocator.Text.{Bytes, range_size}
use egressgateway.Controller.Flow.{Exec, ◌>>>◌, lift, pure, each}

-- netlink.Rule and netlink.Route, as far as the code reads and writes them; the family of a rule is
-- given with the call
pub record NetRule : Type 0 where
  pub table : ℤ
  pub priority : ℤ
  pub mark : ℤ

pub record NetRoute : Type 0 where
  pub link_index : ℕ
  pub gw : Ip
  pub table : ℤ

abbrev pub family_v4 : ℕ
family_v4 = 2

abbrev pub family_v6 : ℕ
family_v6 = 10

-- The calls of netlink: rules of a family, with or without a mark to filter by, and routes of a
-- family and a table. A link is its index.
pub record Netlink (S : Type 0) : Type 0 where
  pub rule_list_filtered : ℕ → Option ℤ → Exec S (List NetRule)
  pub rule_del : ℕ → NetRule → Exec S (Unit {0})
  pub rule_add : ℕ → NetRule → Exec S (Unit {0})
  pub route_list_filtered : ℕ → ℤ → Exec S (List NetRoute)
  pub route_del : NetRoute → Exec S (Unit {0})
  pub route_add : NetRoute → Exec S (Unit {0})
  pub link_by_name : String → Exec S ℕ

pub record RuleRoute : Type 0 where
  pub priority : ℤ

abbrev pub new_rule_route : RuleRoute
new_rule_route = record { priority = pos 99 }

-- a set of marks
unfoldable pub has_int : ℤ → List ℤ → Bool
has_int m [] = false
has_int m (x ∷ xs) = int_eq m x || has_int m xs

-- whether a rule of a mark goes, in PurgeStaleRules and, of any mark, in EnsureRule
abbrev pub is_purged : List ℤ → ℕ → ℕ → ℤ → Bool
is_purged marks start end m =
    not (has_int m marks) && (int_leb (to_int start) m && int_leb m (to_int end))

abbrev pub is_stale : RuleRoute → ℤ → Bool → NetRule → Bool
is_stale r table found rule =
    not (int_eq rule.table table) || (not (int_eq rule.priority r.priority) || found)

module _ {S : Type 0} (netlink : Netlink S) where
  -- the loop clean of PurgeStaleRules
  abbrev pub purge_rule : List ℤ → ℕ → ℕ → ℕ → NetRule → Exec S (Unit {0})
  purge_rule marks start end family rule =
      if is_purged marks start end rule.mark then netlink.rule_del family rule else pure tt

  unfoldable pub clean : List ℤ → ℕ → ℕ → ℕ → Exec S (Unit {0})
  unfolding has_int each
  clean marks start end family = netlink.rule_list_filtered family none >>> λ rules.
      each (purge_rule marks start end family) rules

  -- PurgeStaleRules
  unfoldable pub purge_stale_rules : List ℤ → Bytes → Exec S (Unit {0})
  unfolding clean range_size
  purge_stale_rules marks base_mark = lift (range_size base_mark) >>> λ range.
      clean marks range.0 range.1 family_v4 >>> λ _. clean marks range.0 range.1 family_v6

  -- the loop of EnsureRule, which says whether a rule is left, and EnsureRule
  unfoldable pub ensure_rule_loop : RuleRoute → ℕ → ℤ → Bool → List NetRule → Exec S Bool
  ensure_rule_loop r family table found [] = pure found
  ensure_rule_loop r family table found (rule ∷ rules) =
      if is_stale r table found rule
      then (netlink.rule_del family rule >>> λ _. ensure_rule_loop r family table found rules)
      else ensure_rule_loop r family table true rules

  unfoldable pub ensure_rule : RuleRoute → ℕ → ℤ → ℤ → Exec S (Unit {0})
  unfolding ensure_rule_loop
  ensure_rule r family table mark = netlink.rule_list_filtered family (some mark) >>> λ rules.
      ensure_rule_loop r family table false rules >>> λ found.
      if found
      then pure tt
      else netlink.rule_add family (record { table = table; priority = r.priority; mark = mark })

  module _ (text : NetText) where
    -- EnsureRoute: whether a route leads elsewhere, the loop, and the end
    abbrev pub leads_elsewhere : Option Ip → NetRoute → Bool
    leads_elsewhere none route = true
    leads_elsewhere (some ip) route = not (text.ip_string route.gw == text.ip_string ip)

    unfoldable pub ensure_route_loop : Option Ip → ℤ → Bool → List NetRoute → Exec S Bool
    ensure_route_loop ip table found [] = pure found
    ensure_route_loop ip table found (route ∷ routes) =
        if not (int_eq route.table table)
        then ensure_route_loop ip table found routes
        else if leads_elsewhere ip route
        then (netlink.route_del route >>> λ _. ensure_route_loop ip table found routes)
        else ensure_route_loop ip table true routes

    unfoldable pub ensure_route : ℕ → Option Ip → ℕ → ℤ → Exec S (Unit {0})
    unfolding ensure_route_loop
    ensure_route link ip family table = netlink.route_list_filtered family table >>> λ routes.
        ensure_route_loop ip table false routes >>> λ found. elim ip [
          | none ↦ pure tt
          | some gw ↦
              if found
              then pure tt
              else netlink.route_add (record { link_index = link; gw = gw; table = table })
        ]

    abbrev pub ensure_rule_if : RuleRoute → Option Ip → ℕ → ℤ → ℤ → Exec S (Unit {0})
    ensure_rule_if r none family table mark = pure tt
    ensure_rule_if r (some ip) family table mark = ensure_rule r family table mark

    -- Ensure
    unfoldable pub ensure : RuleRoute → String → Option Ip → Option Ip → ℤ → ℤ → Exec S (Unit {0})
    unfolding ensure_rule ensure_route
    ensure r link_name ipv4 ipv6 table mark =
        if int_eq mark (pos 0)
        then pure tt
        else ensure_rule_if r ipv4 family_v4 table mark >>> λ _.
            ensure_rule_if r ipv6 family_v6 table mark >>> λ _.
            netlink.link_by_name link_name >>> λ link.
            ensure_route link ipv4 family_v4 table >>> λ _. ensure_route link ipv6 family_v6 table
