-- ===== src/Agent/Pending.antt =====
-- Proofs on the maps of what updatePolicyIPSet of pkg/agent/police.go is to add and to delete.
use mathlib.Core.List.{Perm, Permᴰ}
use mathlib.Core.Logic.{∥∥₁_elim}
use egressgateway.Prelude.{
  String, Bool, true, false, not, ◌&&◌, ◌||◌, ◌==◌, eq_iff, eq_refl, List, [], ◌∷◌, Result, ok, err,
  panic, no_fuel, ◌≡◌, refl, sym, ap, ◌∙◌, arith, inl, inr, Bool-cases, Option-cases,
}
use egressgateway.Ip.Range.{has_mark}
use egressgateway.Controller.Flow.{Exec, each}
use egressgateway.Agent.PolicySets.{
  EntryMap, put_entries, add_entries, del_entries, or_already_added,
}
use egressgateway.Agent.Sets.{missing_in}
use egressgateway.Agent.Held.{
  IsIpset, after-ok, is_form, is_form-Formed, Formed, each-Adds, each-deletes,
}
use egressgateway.Agent.Synced.{is_there, load_set-name}
use egressgateway.Agent.World.{Env, IpSet, load_set}

has_mark-missing_in :
    (x : String) (others ss : List String)
    → has_mark x (missing_in others ss) ≡ (not (has_mark x others) && has_mark x ss)
unfolding has_mark missing_in
has_mark-missing_in x others [] = ground arith
has_mark-missing_in x others (s ∷ ss) =
    let rest = has_mark-missing_in x others ss in
    elim (Bool-cases (x == s)) [
      | inl same ↦
          let here = ap (λ m. has_mark m others) ((eq_iff x s).0 same) in
          ground (arith, rest, same, here)
      | inr other ↦ ground (arith, rest, other)
    ]

-- what findDiff adds or deletes, of texts that are in the form of the sets
pub is_form-missing_in :
    (form : String → String) (x : String) (others ss : List String)
    → Formed form ss
    → is_form form x (missing_in others ss) ≡ (not (has_mark x others) && has_mark x ss)
is_form-missing_in form x others ss formed =
    is_form-Formed form x (missing_in others ss)
      (λ y h. formed y (ground (arith, h, has_mark-missing_in y others ss)))
    ∙ has_mark-missing_in x others ss

-- whether a map names a set, and whether it has the entry under the name of a set
unfoldable pub has_key : String → EntryMap → Bool
has_key n [] = false
has_key n (e ∷ es) = n == e.0 || has_key n es

unfoldable pub pending : (String → String) → String → String → EntryMap → Bool
pending form n x [] = false
pending form n x (e ∷ es) = n == e.0 && is_form form x e.1 || pending form n x es

pub has_key-put_entries :
    (n name : String) (ips : List String) (es : EntryMap)
    → has_key n (put_entries name ips es) ≡ (n == name || has_key n es)
unfolding has_key put_entries
has_key-put_entries n name ips [] = ground arith
has_key-put_entries n name ips (e ∷ es) =
    let rest = has_key-put_entries n name ips es in
    elim (Bool-cases (e.0 == name)) [
      | inl same ↦
          let here = ap (λ m. n == m) ((eq_iff e.0 name).0 same) in ground (arith, same, here)
      | inr other ↦ ground (arith, rest, other)
    ]

pub pending-put_entries :
    (form : String → String) (n x name : String) (ips : List String) (es : EntryMap)
    → has_key name es ≡ false
    → pending form n x (put_entries name ips es)
      ≡ (n == name && is_form form x ips || pending form n x es)
unfolding has_key pending put_entries
pending-put_entries form n x name ips [] h = ground arith
pending-put_entries form n x name ips (e ∷ es) h =
    let rest = pending-put_entries form n x name ips es (ground (arith, h)) in
    ground (arith, rest, h, eq_iff name e.0, eq_iff e.0 name)

-- the order of the entries does not matter
has_key-Permᴰ : (n : String) {xs ys : EntryMap} → Permᴰ xs ys → has_key n xs ≡ has_key n ys
unfolding has_key
has_key-Permᴰ n Permᴰ.nil = refl
has_key-Permᴰ n (Permᴰ.cons e p) = ground (arith, has_key-Permᴰ n p, e)
has_key-Permᴰ n (Permᴰ.swap e f) = ground arith
has_key-Permᴰ n (Permᴰ.trans p q) = has_key-Permᴰ n p ∙ has_key-Permᴰ n q

pub has_key-Perm : (n : String) {xs ys : EntryMap} → Perm xs ys → has_key n xs ≡ has_key n ys
has_key-Perm n p = ∥∥₁_elim p (λ x y. hlevel) (λ d. has_key-Permᴰ n d)

pending-Permᴰ :
    (form : String → String) (n x : String) {xs ys : EntryMap}
    → Permᴰ xs ys
    → pending form n x xs ≡ pending form n x ys
unfolding pending
pending-Permᴰ form n x Permᴰ.nil = refl
pending-Permᴰ form n x (Permᴰ.cons e p) = ground (arith, pending-Permᴰ form n x p, e)
pending-Permᴰ form n x (Permᴰ.swap e f) = ground arith
pending-Permᴰ form n x (Permᴰ.trans p q) = pending-Permᴰ form n x p ∙ pending-Permᴰ form n x q

pub pending-Perm :
    (form : String → String) (n x : String) {xs ys : EntryMap}
    → Perm xs ys
    → pending form n x xs ≡ pending form n x ys
pending-Perm form n x p = ∥∥₁_elim p (λ a b. hlevel) (λ d. pending-Permᴰ form n x d)

module _ {S : Type 0} (env : Env S) (sets : IsIpset env.ipset) where
  -- AddEntry, where an entry that is there is no error
  added_or_already :
      (set : IpSet) (text : String) (r : Result (Unit {0}) × S) (s s' : S)
      → env.ipset.add_entry text set s ≡ r
      → or_already_added env r ≡ (ok tt, s')
      → (n x : String)
      → sets.holds n x s' ≡ ((n == set.name && x == sets.form text) || sets.holds n x s)
  added_or_already set text (ok u, s1) s s' e h n x =
      ap (λ q. sets.holds n x q.1) (sym h) ∙ sets.added text set s s1 e n x
  added_or_already set text (err why, s1) s s' e h n x =
      elim (Bool-cases (env.ipset.is_already_added why)) [
        | inl there ↦
            ap (sets.holds n x) (ground (arith, h, there))
            ∙ sets.already text set why s s1 e there n x
        | inr other ↦ absurd (ground (arith, h, other))
      ]
  added_or_already set text (panic, s1) s s' e h n x = absurd (ground (arith, h))
  added_or_already set text (no_fuel, s1) s s' e h n x = absurd (ground (arith, h))

  -- the loops over the maps
  add_entries-pending :
      (loaded : List IpSet) (e : String × List String) (s s' : S)
      → is_there (load_set e.0 loaded) ≡ true
      → add_entries env loaded e s ≡ (ok tt, s')
      → (n x : String)
      → sets.holds n x s' ≡ ((n == e.0 && is_form sets.form x e.1) || sets.holds n x s)
  unfolding add_entries
  add_entries-pending loaded (name, ips) s s' there h n x =
      elim (Option-cases (load_set name loaded)) [
        | inl gone ↦ absurd (ground (arith, there, gone))
        | inr (set, found) ↦
            let named = load_set-name name set loaded found in
            let body : String → Exec S (Unit {0}) =
              λ ip v. or_already_added env (env.ipset.add_entry ip set v) in
            let run : each body ips s ≡ (ok tt, s') = sym (rw (found, add_entries) refl) ∙ h in
            each-Adds env.ipset sets body set.name
              (λ text v v' q.
                added_or_already set text (env.ipset.add_entry text set v) v v' refl q)
              ips s s' run n x
            ∙ rw named
      ]

  pub each-add_entries :
      (loaded : List IpSet) (es : EntryMap) (s s' : S)
      → ((k : String) → has_key k es ≡ true → is_there (load_set k loaded) ≡ true)
      → each (add_entries env loaded) es s ≡ (ok tt, s')
      → (n x : String) → sets.holds n x s' ≡ (pending sets.form n x es || sets.holds n x s)
  unfolding each pending has_key
  each-add_entries loaded [] s s' there h n x = ap (λ r. sets.holds n x r.1) (sym h)
  each-add_entries loaded (e ∷ es) s s' there h n x =
      let (u, mid, first, later) =
        after-ok (add_entries env loaded e s) (λ _. each (add_entries env loaded) es) h in
      let here =
        add_entries-pending loaded e s mid (there e.0 (ground (arith, eq_refl e.0))) first n x in
      let rest = each-add_entries loaded es mid s' (λ k q. there k (ground (arith, q))) later n x in
      ground (arith, here, rest)

  pub each-del_entries :
      (es : EntryMap) (s s' : S)
      → each (del_entries env) es s ≡ (ok tt, s')
      → (n x : String) → sets.holds n x s' ≡ (not (pending sets.form n x es) && sets.holds n x s)
  unfolding each pending del_entries
  each-del_entries [] s s' h n x = ap (λ r. sets.holds n x r.1) (sym h)
  each-del_entries (e ∷ es) s s' h n x =
      let (u, mid, first, later) =
        after-ok (del_entries env e s) (λ _. each (del_entries env) es) h in
      let here = each-deletes env.ipset sets e.0 e.1 s mid first n x in
      ground (arith, here, each-del_entries es mid s' later n x)
