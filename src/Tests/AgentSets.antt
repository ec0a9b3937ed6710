-- ===== src/Tests/AgentSets.antt =====
-- Sets of a kernel as a list of their entries, where a/32 is listed as a.
use egressgateway.Prelude.{
  String, Bool, true, false, not, ◌&&◌, ◌||◌, ◌==◌, eq_iff, if◌then◌else◌, List, [], ◌∷◌, ok, err,
  ◌≡◌, refl, sym, ap, ◌∙◌, arith, Bool-cases, inl, inr, Error, Result,
}
use egressgateway.Ip.Range.{has_mark}
use egressgateway.Agent.Held.{IsIpset}
use egressgateway.Agent.World.{IpsetClient, IpSet}

abbrev pub Entries : Type 0
Entries = List (String × String)

abbrev pub short : String → String
short x = if x == "a/32" then "a" else x

unfoldable pub held : String → String → Entries → Bool
held n x [] = false
held n x (e ∷ es) = n == e.0 && x == short e.1 || held n x es

unfoldable pub list_set : String → Entries → List String
list_set n [] = []
list_set n (e ∷ es) = let rest = list_set n es in if n == e.0 then short e.1 ∷ rest else rest

unfoldable pub drop_entry : String → String → Entries → Entries
drop_entry text n [] = []
drop_entry text n (e ∷ es) =
    let rest = drop_entry text n es in
    if n == e.0 && short text == short e.1 then rest else e ∷ rest

unfoldable pub drop_set : String → Entries → Entries
drop_set n [] = []
drop_set n (e ∷ es) = let rest = drop_set n es in if n == e.0 then rest else e ∷ rest

abbrev pub ipset : IpsetClient Entries
ipset = record {
  create_set = λ set s. (ok tt, s);
  list_entries = λ n s. (ok (list_set n s), s);
  add_entry = λ text set s. (ok tt, (set.name, text) ∷ s);
  del_entry = λ text n s. (ok tt, drop_entry text n s);
  destroy_set = λ n s. (ok tt, drop_set n s);
  list_sets = λ s. (ok ("egress-old" ∷ "egress-cluster-cidr-ipv4" ∷ []), s);
  is_already_added = λ e. false;
}

has_mark-list_set : (n x : String) (s : Entries) → has_mark x (list_set n s) ≡ held n x s
unfolding has_mark list_set held
has_mark-list_set n x [] = refl
has_mark-list_set n x (e ∷ es) = ground (arith, has_mark-list_set n x es)

pub held-drop_entry :
    (text name n x : String) (s : Entries)
    → held n x (drop_entry text name s) ≡ (not (n == name && x == short text) && held n x s)
unfolding held drop_entry
held-drop_entry text name n x [] = ground arith
held-drop_entry text name n x (e ∷ es) =
    let rest = held-drop_entry text name n x es in
    elim (Bool-cases (name == e.0)) [
      | inr other ↦ ground (arith, rest, other, eq_iff n e.0, eq_iff n name, eq_iff name e.0)
      | inl same ↦
          let one = ap (λ m. n == m) ((eq_iff name e.0).0 same) in
          elim (Bool-cases (short text == short e.1)) [
            | inr other ↦ ground (
              arith,
              rest,
              same,
              other,
              one,
              eq_iff x (short e.1),
              eq_iff x (short text),
              eq_iff (short text) (short e.1),
            )
            | inl also ↦
                let two = ap (λ y. x == y) ((eq_iff (short text) (short e.1)).0 also) in
                ground (arith, rest, same, also, one, two)
          ]
    ]

pub held-drop_set :
    (name n x : String) (s : Entries)
    → (n == name) ≡ false
    → held n x (drop_set name s) ≡ held n x s
unfolding held drop_set
held-drop_set name n x [] h = refl
held-drop_set name n x (e ∷ es) h =
    ground (arith, held-drop_set name n x es h, eq_iff name e.0, eq_iff n e.0, eq_iff n name, h)

short-short : (y : String) → short (short y) ≡ short y
short-short y = ground (arith, eq_iff y "a/32")

pub short-held : (n x : String) (s : Entries) → held n x s ≡ true → short x ≡ x
unfolding held
short-held n x [] h = absurd (ground (arith, h))
short-held n x (e ∷ es) h =
    ground (arith, h, short-held n x es, eq_iff x (short e.1), short-short e.1)

pub added_entry :
    (text : String) (set : IpSet) (s s' : Entries)
    → ipset.add_entry text set s ≡ (ok tt, s')
    → (n x : String) → held n x s' ≡ ((n == set.name && x == short text) || held n x s)
unfolding held
added_entry text set s s' h n x = ap (λ q. held n x q.1) (sym h)

pub listed_set :
    (n : String) (s s' : Entries) (l : List String)
    → ipset.list_entries n s ≡ (ok l, s')
    → (s' ≡ s) × ((x : String) → has_mark x l ≡ held n x s)
unfolding has_mark
listed_set n s s' l e = (ap (λ q. q.1) (sym e), λ x. ground (arith, e, has_mark-list_set n x s))

pub not_failed :
    {A P : Type 0} (a : A) (e : Error) (s s' : Entries)
    → ◌≡◌ {A = Result A × Entries} (ok a, s) (err e, s')
    → P
not_failed a e s s' h = absurd (ground (arith, h))

pub same_state :
    (s s' : Entries)
    → ◌≡◌ {A = Result (Unit {0}) × Entries} (ok tt, s) (ok tt, s')
    → (n x : String) → held n x s' ≡ held n x s
same_state s s' h n x = ap (λ q. held n x q.1) (sym h)

abbrev pub ipset-IsIpset : IsIpset ipset
ipset-IsIpset = record {
  holds = held;
  form = short;
  listed = listed_set;
  unlisted = λ n e s s' h k. not_failed (list_set n s) e s s' h;
  formed = short-held;
  created = λ set s s' h n x. same_state s s' h n x;
  added = added_entry;
  already = λ text set e s s' h k n x. not_failed tt e ((set.name, text) ∷ s) s' h;
  deleted = λ text n s s' h m x. ap (λ q. held m x q.1) (sym h) ∙ held-drop_entry text n m x s;
}
