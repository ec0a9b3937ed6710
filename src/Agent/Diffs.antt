-- ===== src/Agent/Diffs.antt =====
-- Proofs on updatePolicyIPSet of pkg/agent/police.go: the loop that fills the maps of what is to be
-- added and deleted.
use mathlib.Core.Path.{subst}
use egressgateway.Prelude.{
  String, Bool, true, false, not, ◌&&◌, ◌||◌, ◌==◌, eq_iff, eq_refl, if◌then◌else◌, List, [], ◌∷◌,
  map, none, some, Result, ok, err, panic, no_fuel, ◌≡◌, refl, sym, ap, ◌∙◌, arith, inl, inr,
  Bool-cases, All,
}
use egressgateway.Ip.Range.{has_mark}
use egressgateway.Agent.Names.{SetName, IpStack, ipv4, ipv6}
use egressgateway.Agent.Sets.{listed, missing_in, find_diff}
use egressgateway.Agent.PolicySets.{
  EntryMap, put_entries, Wanted, kind_list, wanted_list, is_stack_v4, is_disabled, diff_sets,
  or_no_set, is_no_set,
}
use egressgateway.Agent.Held.{IsIpset, after-ok, Formed}
use egressgateway.Agent.Synced.{has_name}
use egressgateway.Agent.Pending.{
  has_key, pending, has_key-put_entries, pending-put_entries, is_form-missing_in,
}
use egressgateway.Agent.World.{Env}

-- no two sets of the list have one name
abbrev pub Distinct : List SetName → Type 0
Distinct [] = Unit
Distinct (set ∷ names) = (has_name set.name names ≡ false) × Distinct names

abbrev pub pick : IpStack → List String × List String → List String
pick ipv4 lists = lists.0
pick ipv6 lists = lists.1

pub has_name-ne :
    (n m : String) (names : List SetName)
    → has_name m names ≡ false
    → has_name n names ≡ true
    → (n == m) ≡ false
has_name-ne n m names h k = elim (Bool-cases (n == m)) [
  | inl same ↦
      let one = ap (λ x. has_name x names) ((eq_iff n m).0 same) in
      absurd (ground (arith, h, k, one))
  | inr other ↦ other
]

-- the texts that a set is to hold, sets of enabled versions, and wanted texts in the form of the sets
abbrev pub entries : {S : Type 0} → Env S → Wanted → SetName → List String
entries env wanted set = map (listed env) (pick set.stack (kind_list set.kind wanted))

abbrev pub Enabled : {S : Type 0} → Env S → List SetName → Type 0
Enabled env names = All (λ set. is_disabled env set.stack ≡ false) names

abbrev pub AllFormed : {S : Type 0} → Env S → (String → String) → Wanted → List SetName → Type 0
AllFormed env form wanted names = All (λ set. Formed form (entries env wanted set)) names

module _ {S : Type 0} (env : Env S) (sets : IsIpset env.ipset) (wanted : Wanted) where
  wanted_list-pick :
      (set : SetName)
      → is_disabled env set.stack ≡ false
      → wanted_list env set wanted ≡ some (pick set.stack (kind_list set.kind wanted))
  wanted_list-pick set h = go set.stack h
    where
      go :
          (stack : IpStack)
          → is_disabled env stack ≡ false
          → (if is_stack_v4 env stack && env.cfg.enable_ipv4
              then some (kind_list set.kind wanted).0
              else if env.cfg.enable_ipv6
              then some (kind_list set.kind wanted).1
              else none)
            ≡ some (pick stack (kind_list set.kind wanted))
      go ipv4 h = ground (arith, h)
      go ipv6 h = ground (arith, h)

  -- what ListEntries gives
  listing :
      (name : String) (r : Result (List String) × S) (old : List String) (s s' : S)
      → env.ipset.list_entries name s ≡ r
      → or_no_set env r ≡ (ok old, s')
      → (s' ≡ s) × ((x : String) → has_mark x old ≡ sets.holds name x s)
  unfolding has_mark
  listing name (ok l, s1) old s s' e h =
      let (same, held) = sets.listed name s s1 l e in
      (ap (λ q. q.1) (sym h) ∙ same, λ x. ground (arith, held x, h))
  listing name (err why, s1) old s s' e h = elim (Bool-cases (is_no_set why)) [
    | inl missing ↦
        let (same, held) = sets.unlisted name why s s1 e missing in
        let run : or_no_set env (err why, s1) ≡ (ok [], s1) = rw missing in
        let both = sym run ∙ h in
        (ap (λ q. q.1) (sym both) ∙ same, λ x. ground (arith, held x, both))
    | inr other ↦ absurd (ground (arith, h, other))
  ]
  listing name (panic, s1) old s s' e h = absurd (ground (arith, h))
  listing name (no_fuel, s1) old s s' e h = absurd (ground (arith, h))

  -- what is to be added and to be deleted, where the sets hold what they do in the state
  unfoldable pub adds : S → String → String → List SetName → Bool
  adds s n x [] = false
  adds s n x (set ∷ names) =
      n == set.name && (not (sets.holds set.name x s) && has_mark x (entries env wanted set))
      || adds s n x names

  unfoldable pub dels : S → String → String → List SetName → Bool
  dels s n x [] = false
  dels s n x (set ∷ names) =
      n == set.name && (not (has_mark x (entries env wanted set)) && sets.holds set.name x s)
      || dels s n x names

  abbrev pub Diffs : S → List SetName → EntryMap × EntryMap → EntryMap × EntryMap → Type 0
  Diffs s names lists lists' =
      ((k : String) → has_key k lists'.0 ≡ (has_name k names || has_key k lists.0))
      × ((n x : String)
          → pending sets.form n x lists'.0 ≡ (adds s n x names || pending sets.form n x lists.0))
      × ((n x : String)
          → pending sets.form n x lists'.1 ≡ (dels s n x names || pending sets.form n x lists.1))

  abbrev Fresh : List SetName → EntryMap × EntryMap → Type 0
  Fresh names lists =
      (n : String)
      → has_name n names ≡ true
      → (has_key n lists.0 ≡ false) × (has_key n lists.1 ≡ false)

  -- one round of the loop
  abbrev put_diff : SetName → List String → EntryMap × EntryMap → EntryMap × EntryMap
  put_diff set old lists =
      let new_copy = entries env wanted set in
      (
        put_entries set.name (missing_in old new_copy) lists.0,
        put_entries set.name (missing_in new_copy old) lists.1,
      )

  Fresh-put_diff :
      (set : SetName) (names : List SetName) (old : List String) (lists : EntryMap × EntryMap)
      → has_name set.name names ≡ false
      → Fresh (set ∷ names) lists
      → Fresh names (put_diff set old lists)
  Fresh-put_diff set names old lists h fresh n k =
      let other = has_name-ne n set.name names h k in
      let (f0, f1) = fresh n (ground (arith, k)) in
      let k0 = has_key-put_entries n set.name (missing_in old (entries env wanted set)) lists.0 in
      let k1 = has_key-put_entries n set.name (missing_in (entries env wanted set) old) lists.1 in
      (ground (arith, k0, f0, other), ground (arith, k1, f1, other))

  Diffs-put_diff :
      (set : SetName) (names : List SetName) (old : List String) (s : S)
      (lists lists' : EntryMap × EntryMap)
      → Formed sets.form (entries env wanted set)
      → ((x : String) → has_mark x old ≡ sets.holds set.name x s)
      → Fresh (set ∷ names) lists
      → Diffs s names (put_diff set old lists) lists'
      → Diffs s (set ∷ names) lists lists'
  unfolding adds dels
  Diffs-put_diff set names old s lists lists' formed held fresh (keys, added, deleted) =
      let (f0, f1) = fresh set.name (ground (arith, eq_refl set.name)) in
      let old_formed : Formed sets.form old = λ y h. sets.formed set.name y s (sym (held y) ∙ h) in
      (
        (λ k. ground (
          arith,
          keys k,
          has_key-put_entries k set.name (missing_in old (entries env wanted set)) lists.0,
        )),
        (λ n x. ground (
          arith,
          added n x,
          held x,
          pending-put_entries sets.form n x set.name (missing_in old (entries env wanted set))
              lists.0 f0,
          is_form-missing_in sets.form x old (entries env wanted set) formed,
        )),
        (λ n x. ground (
          arith,
          deleted n x,
          held x,
          pending-put_entries sets.form n x set.name (missing_in (entries env wanted set) old)
              lists.1 f1,
          is_form-missing_in sets.form x (entries env wanted set) old old_formed,
        )),
      )

  pub diff_sets-Diffs :
      (names : List SetName) (lists lists' : EntryMap × EntryMap) (s s' : S)
      → Enabled env names
      → AllFormed env sets.form wanted names
      → Distinct names
      → Fresh names lists
      → diff_sets env wanted names lists s ≡ (ok lists', s')
      → (s' ≡ s) × Diffs s names lists lists'
  unfolding diff_sets adds dels find_diff
  diff_sets-Diffs [] lists lists' s s' en fo di fresh h =
      let same = ap (λ q. q.1) (sym h) in
      (same, ((λ k. ground (arith, h)), (λ n x. ground (arith, h)), (λ n x. ground (arith, h))))
  diff_sets-Diffs (set ∷ names) lists lists' s s' (e0, en) (f0, fo) (d0, di) fresh h =
      let (old, mid, read, later) =
        after-ok (or_no_set env (env.ipset.list_entries set.name s)) _ h in
      let (same, held) = listing set.name (env.ipset.list_entries set.name s) old s mid refl read in
      let later' : diff_sets env wanted names (put_diff set old lists) mid ≡ (ok lists', s') =
        rw (wanted_list-pick set e0) at later in
      let (same', diffs) =
        diff_sets-Diffs names (put_diff set old lists) lists' mid s' en fo di
          (Fresh-put_diff set names old lists d0 fresh) later' in
      (
        same' ∙ same,
        Diffs-put_diff set names old s lists lists' f0 held fresh
            (subst (λ v. Diffs v names (put_diff set old lists) lists') same diffs),
      )
