-- ===== src/Agent/Synced.antt =====
-- Proofs on updatePolicyIPSet of pkg/agent/police.go: the sets are there, and what is to be added and
-- deleted.
use mathlib.Core.Path.{subst}
use egressgateway.Prelude.{
  String, Bool, true, false, not, ◌&&◌, ◌||◌, ◌==◌, eq_iff, List, [], ◌∷◌, Option, none, some,
  Result, ok, err, panic, no_fuel, ◌≡◌, refl, sym, ap, ◌∙◌, arith, inl, inr, Bool-cases,
  Option-cases, All,
}
use egressgateway.Controller.Flow.{after, each}
use egressgateway.Agent.Names.{SetName, hash_family}
use egressgateway.Agent.PolicySets.{is_disabled, create_ip_set}
use egressgateway.Agent.Held.{IsIpset, after-ok}
use egressgateway.Agent.World.{Env, World, IpSet, load_set, delete_set, store_set, at_server}

abbrev pub is_there : Option IpSet → Bool
is_there none = false
is_there (some set) = true

-- whether a set of that name is in the list
abbrev pub has_name : String → List SetName → Bool
has_name n [] = false
has_name n (set ∷ sets) = n == set.name || has_name n sets

load_set-delete_set :
    (n name : String) (sets : List IpSet)
    → is_there (load_set n (delete_set name sets)) ≡ (not (n == name) && is_there (load_set n sets))
unfolding load_set delete_set
load_set-delete_set n name [] = ground arith
load_set-delete_set n name (set ∷ sets) =
    ground (
      arith,
      load_set-delete_set n name sets,
      eq_iff set.name name,
      eq_iff set.name n,
      eq_iff n name,
    )

load_set-store_set :
    (n : String) (set : IpSet) (sets : List IpSet)
    → is_there (load_set n (store_set set sets)) ≡ (n == set.name || is_there (load_set n sets))
unfolding load_set
load_set-store_set n set sets =
    ground (arith, load_set-delete_set n set.name sets, eq_iff set.name n, eq_iff n set.name)

-- what the map has under a name has that name
pub load_set-name :
    (n : String) (set : IpSet) (sets : List IpSet) → load_set n sets ≡ some set → set.name ≡ n
unfolding load_set
load_set-name n set [] h = absurd (ground (arith, h))
load_set-name n set (s ∷ sets) h = ground (arith, h, load_set-name n set sets, eq_iff s.name n)

module _ {S : Type 0} (env : Env S) (sets : IsIpset env.ipset) where
  abbrev set_of_name : SetName → IpSet
  set_of_name set = record { name = set.name; hash_family = hash_family set.stack }

  create_ip_set-there :
      (set : SetName) (w : World S) (old : IpSet)
      → load_set set.name w.ipset_map ≡ some old
      → create_ip_set env set w ≡ (ok tt, w)
  unfolding create_ip_set
  create_ip_set-there set w old there = rw (there, create_ip_set) refl

  create_ip_set-fresh :
      (set : SetName) (w : World S)
      → load_set set.name w.ipset_map ≡ none
      → is_disabled env set.stack ≡ false
      → create_ip_set env set w
        ≡ after
            (at_server (env.ipset.create_set (set_of_name set)) w)
            (λ _ v. (ok tt, record v { ipset_map = store_set (set_of_name set) v.ipset_map }))
  unfolding create_ip_set
  create_ip_set-fresh set w fresh enabled = rw (fresh, enabled, create_ip_set) refl

  abbrev Made : SetName → World S → World S → Type 0
  Made set w w' =
      ((n x : String) → sets.holds n x w'.server ≡ sets.holds n x w.server)
      × ((n : String)
          → is_there (load_set n w'.ipset_map)
            ≡ (n == set.name || is_there (load_set n w.ipset_map)))

  Made-there :
      (set : SetName) (w : World S) (old : IpSet)
      → load_set set.name w.ipset_map ≡ some old
      → Made set w w
  Made-there set w old there = (
    (λ n x. refl),
    (λ n. elim (Bool-cases (n == set.name)) [
      | inl same ↦
          let found = ap (λ m. load_set m w.ipset_map) ((eq_iff n set.name).0 same) ∙ there in
          rw (same, found)
      | inr other ↦ rw other
    ]),
  )

  Made-fresh :
      (set : SetName) (w : World S) (r : Result (Unit {0}) × S) (w' : World S)
      → env.ipset.create_set (set_of_name set) w.server ≡ r
      → after
          (r.0, record w { server = r.1 })
          (λ (_ : Unit {0}) (v : World S).
            (ok tt, record v { ipset_map = store_set (set_of_name set) v.ipset_map }))
        ≡ (ok tt, w')
      → Made set w w'
  Made-fresh set w (ok u, s) w' made h =
      let same = ap (λ q. q.1) (sym h) in
      (
        (λ n x.
            ap (λ v. sets.holds n x v.server) same
            ∙ sets.created (set_of_name set) w.server s made n x),
        (λ n.
            ap (λ v. is_there (load_set n v.ipset_map)) same
            ∙ load_set-store_set n (set_of_name set) w.ipset_map),
      )
  Made-fresh set w (err e, s) w' made h = absurd (ground (arith, h))
  Made-fresh set w (panic, s) w' made h = absurd (ground (arith, h))
  Made-fresh set w (no_fuel, s) w' made h = absurd (ground (arith, h))

  create_ip_set-Made :
      (set : SetName) (w w' : World S)
      → is_disabled env set.stack ≡ false
      → create_ip_set env set w ≡ (ok tt, w')
      → Made set w w'
  create_ip_set-Made set w w' enabled h = elim (Option-cases (load_set set.name w.ipset_map)) [
    | inl fresh ↦
        Made-fresh set w (env.ipset.create_set (set_of_name set) w.server) w' refl
          (sym (create_ip_set-fresh set w fresh enabled) ∙ h)
    | inr (old, there) ↦
        subst (Made set w) (ap (λ q. q.1) (sym (create_ip_set-there set w old there) ∙ h))
          (Made-there set w old there)
  ]

  pub create-made :
      (names : List SetName) (w w' : World S)
      → All (λ set. is_disabled env set.stack ≡ false) names
      → each (create_ip_set env) names w ≡ (ok tt, w')
      → ((n x : String) → sets.holds n x w'.server ≡ sets.holds n x w.server)
        × ((n : String)
            → is_there (load_set n w'.ipset_map)
              ≡ (has_name n names || is_there (load_set n w.ipset_map)))
  unfolding each
  create-made [] w w' enabled h = (
    (λ n x. ap (λ r. sets.holds n x r.1.server) (sym h)),
    (λ n. ap (λ r. is_there (load_set n r.1.ipset_map)) (sym h)),
  )
  create-made (set ∷ names) w w' (here, enabled) h =
      let (u, mid, first, later) =
        after-ok (create_ip_set env set w) (λ _. each (create_ip_set env) names) h in
      let (same, there) = create_ip_set-Made set w mid here first in
      let (same', there') = create-made names mid w' enabled later in
      ((λ n x. same' n x ∙ same n x), (λ n. ground (arith, there' n, there n)))
