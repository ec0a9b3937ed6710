-- ===== src/Agent/Held.antt =====
-- What the sets of the kernel hold, and proofs on the loops that add and delete entries, for
-- pkg/agent/police.go.
use egressgateway.Prelude.{
  String, Bool, true, false, not, ◌&&◌, ◌||◌, ◌==◌, eq_refl, List, [], ◌∷◌, Error, Result, ok, err,
  panic, no_fuel, ◌≡◌, refl, ap, arith,
}
use egressgateway.Ip.Range.{has_mark}
use egressgateway.Controller.Flow.{Exec, after, each}
use egressgateway.Agent.PolicySets.{is_no_set}
use egressgateway.Agent.World.{IpSet, IpsetClient}

-- The sets as ipset keeps them: each text that is added or deleted is taken in one form, in which
-- it is listed. A set that is not there holds nothing, and to create one that is there changes
-- nothing.
pub record IsIpset {S : Type 0} (ipset : IpsetClient S) : Type 0 where
  pub holds : String → String → S → Bool
  pub form : String → String
  pub listed :
      (name : String) (s s' : S) (l : List String)
      → ipset.list_entries name s ≡ (ok l, s')
      → (s' ≡ s) × ((x : String) → has_mark x l ≡ holds name x s)
  pub unlisted :
      (name : String) (e : Error) (s s' : S)
      → ipset.list_entries name s ≡ (err e, s')
      → is_no_set e ≡ true
      → (s' ≡ s) × ((x : String) → holds name x s ≡ false)
  pub formed : (name x : String) (s : S) → holds name x s ≡ true → form x ≡ x
  pub created :
      (set : IpSet) (s s' : S)
      → ipset.create_set set s ≡ (ok tt, s')
      → (n x : String) → holds n x s' ≡ holds n x s
  pub added :
      (text : String) (set : IpSet) (s s' : S)
      → ipset.add_entry text set s ≡ (ok tt, s')
      → (n x : String) → holds n x s' ≡ ((n == set.name && x == form text) || holds n x s)
  pub already :
      (text : String) (set : IpSet) (e : Error) (s s' : S)
      → ipset.add_entry text set s ≡ (err e, s')
      → ipset.is_already_added e ≡ true
      → (n x : String) → holds n x s' ≡ ((n == set.name && x == form text) || holds n x s)
  pub deleted :
      (text name : String) (s s' : S)
      → ipset.del_entry text name s ≡ (ok tt, s')
      → (n x : String) → holds n x s' ≡ (not (n == name && x == form text) && holds n x s)

-- a run that goes on after a call
pub after-ok :
    {S A B : Type 0} (r : Result A × S) (f : A → Exec S B) {b : B} {s' : S}
    → after r f ≡ (ok b, s')
    → (a : A) × (s : S) × (r ≡ (ok a, s)) × (f a s ≡ (ok b, s'))
after-ok (ok a, s) f h = (a, s, refl, h)
after-ok (err e, s) f h = absurd (ground (arith, h))
after-ok (panic, s) f h = absurd (ground (arith, h))
after-ok (no_fuel, s) f h = absurd (ground (arith, h))

-- whether an entry is the form of a text of the list
unfoldable pub is_form : (String → String) → String → List String → Bool
is_form form x [] = false
is_form form x (s ∷ ss) = x == form s || is_form form x ss

-- texts in the form in which they are listed
abbrev pub Formed : (String → String) → List String → Type 0
Formed form ss = (x : String) → has_mark x ss ≡ true → form x ≡ x

pub is_form-Formed :
    (form : String → String) (x : String) (ss : List String)
    → Formed form ss
    → is_form form x ss ≡ has_mark x ss
unfolding is_form has_mark
is_form-Formed form x [] h = refl
is_form-Formed form x (s ∷ ss) h =
    let here : form s ≡ s = h s (ground (arith, eq_refl s)) in
    let rest = is_form-Formed form x ss (λ z k. h z (ground (arith, k))) in rw (here, rest)

module _ {S : Type 0} (ipset : IpsetClient S) (sets : IsIpset ipset) where
  -- a call of a loop that adds, and one that deletes
  abbrev pub Adds : (String → Exec S (Unit {0})) → String → Type 0
  Adds body name =
      (text : String) (s s' : S)
      → body text s ≡ (ok tt, s')
      → (n x : String)
      → sets.holds n x s' ≡ ((n == name && x == sets.form text) || sets.holds n x s)

  pub each-Adds :
      (body : String → Exec S (Unit {0})) (name : String)
      → Adds body name
      → (texts : List String) (s s' : S) → each body texts s ≡ (ok tt, s')
      → (n x : String)
      → sets.holds n x s' ≡ ((n == name && is_form sets.form x texts) || sets.holds n x s)
  unfolding each is_form
  each-Adds body name adds [] s s' h n x = ground (arith, ap (λ r. sets.holds n x r.1) h)
  each-Adds body name adds (text ∷ texts) s s' h n x =
      let (u, mid, first, later) = after-ok (body text s) (λ _. each body texts) h in
      ground (arith, each-Adds body name adds texts mid s' later n x, adds text s mid first n x)

  pub each-deletes :
      (name : String) (texts : List String) (s s' : S)
      → each (λ text. ipset.del_entry text name) texts s ≡ (ok tt, s')
      → (n x : String)
      → sets.holds n x s' ≡ (not (n == name && is_form sets.form x texts) && sets.holds n x s)
  unfolding each is_form
  each-deletes name [] s s' h n x = ground (arith, ap (λ r. sets.holds n x r.1) h)
  each-deletes name (text ∷ texts) s s' h n x =
      let (u, mid, first, later) =
        after-ok (ipset.del_entry text name s) (λ _. each (λ t. ipset.del_entry t name) texts) h in
      ground
        (arith, each-deletes name texts mid s' later n x, sets.deleted text name s mid first n x)
