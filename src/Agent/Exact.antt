-- ===== src/Agent/Exact.antt =====
-- Proofs on process of reconcileClusterInfo, of pkg/agent/police.go.
use egressgateway.Prelude.{
  String, true, false, not, ◌&&◌, ◌||◌, ◌==◌, eq_iff, eq_refl, if◌then◌else◌, List, [], ◌∷◌, ok,
  ◌≡◌, refl, sym, ap, ◌∙◌, arith, inl, inr, Bool-cases,
}
use egressgateway.Prelude.Sort.{sort_strings, insert_text, text_le}
use egressgateway.Ip.Range.{has_mark, delete_mark}
use egressgateway.Ip.Diff.{has_mark-delete_mark, has_mark-add_mark}
use egressgateway.Controller.Flow.{each}
use egressgateway.Agent.ClusterCidrs.{set_of, delete_all, process}
use egressgateway.Agent.Held.{
  IsIpset, after-ok, each-Adds, each-deletes, is_form, is_form-Formed, Formed,
}
use egressgateway.Agent.World.{Env, IpSet}

has_mark-insert_text :
    (x s : String) (ss : List String) → has_mark x (insert_text s ss) ≡ (x == s || has_mark x ss)
unfolding has_mark insert_text
has_mark-insert_text x s [] = refl
has_mark-insert_text x s (t ∷ ts) = elim (Bool-cases (text_le s t)) [
  | inl le ↦ ground (arith, le)
  | inr gt ↦ ground (arith, gt, has_mark-insert_text x s ts)
]

has_mark-sort_strings :
    (x : String) (ss : List String) → has_mark x (sort_strings ss) ≡ has_mark x ss
unfolding has_mark sort_strings
has_mark-sort_strings x [] = refl
has_mark-sort_strings x (s ∷ ss) =
    has_mark-insert_text x s (sort_strings ss) ∙ rw (has_mark-sort_strings x ss)

has_mark-set_of : (x : String) (ss : List String) → has_mark x (set_of ss) ≡ has_mark x ss
unfolding has_mark set_of
has_mark-set_of x [] = refl
has_mark-set_of x (s ∷ ss) = has_mark-add_mark x s (set_of ss) ∙ rw (has_mark-set_of x ss)

has_mark-delete_all :
    (x : String) (keys set : List String)
    → has_mark x (delete_all keys set) ≡ (not (has_mark x keys) && has_mark x set)
unfolding has_mark delete_all
has_mark-delete_all x [] set = ground arith
has_mark-delete_all x (key ∷ keys) set =
    ground (arith, has_mark-delete_all x keys (delete_mark key set), has_mark-delete_mark x key set)

-- what process adds, and what it deletes
change : List String → List String → List String
change others ss = sort_strings (delete_all others (set_of ss))

has_mark-change :
    (x : String) (others ss : List String)
    → has_mark x (change others ss) ≡ (not (has_mark x others) && has_mark x ss)
unfolding change
has_mark-change x others ss =
    has_mark-sort_strings x (delete_all others (set_of ss))
    ∙ has_mark-delete_all x others (set_of ss)
    ∙ rw (has_mark-set_of x ss)

change-Formed :
    (form : String → String) (others ss : List String)
    → Formed form ss
    → Formed form (change others ss)
change-Formed form others ss h x k = h x (ground (arith, k, has_mark-change x others ss))

module _ {S : Type 0} (env : Env S) (sets : IsIpset env.ipset) (set : IpSet) (got exp : List String)
    (s s' : S) (got_all : (x : String) → has_mark x got ≡ sets.holds set.name x s)
    (done : process env set got exp s ≡ (ok tt, s')) where
  -- what process leaves in the sets
  process-holds :
      (n x : String)
      → sets.holds n x s' ≡ (
          not (n == set.name && is_form sets.form x (change exp got))
          && ((n == set.name && is_form sets.form x (change got exp)) || sets.holds n x s))
  unfolding process change
  process-holds n x =
      let (u, mid, first, later) =
        after-ok (each (λ item. env.ipset.add_entry item set) (change got exp) s)
          (λ _. each (λ item. env.ipset.del_entry item set.name) (change exp got)) done in
      each-deletes env.ipset sets set.name (change exp got) mid s' later n x
      ∙ ap (λ held. not (n == set.name && is_form sets.form x (change exp got)) && held)
          (each-Adds env.ipset sets (λ item. env.ipset.add_entry item set) set.name
            (λ text. sets.added text set) (change got exp) s mid first n x)

  got-Formed : Formed sets.form got
  got-Formed x h = sets.formed set.name x s (sym (got_all x) ∙ h)

  -- When process succeeds from what the set holds, and the texts that it is to hold are in the form
  -- in which ipset lists them, the set holds these and no others, and other sets are as they were.
  pub process-exact :
      Formed sets.form exp
      → (n x : String)
      → sets.holds n x s' ≡ (if n == set.name then has_mark x exp else sets.holds n x s)
  process-exact formed n x =
      let dropped =
        is_form-Formed sets.form x (change exp got) (change-Formed sets.form exp got got-Formed)
        ∙ has_mark-change x exp got in
      let put =
        is_form-Formed sets.form x (change got exp) (change-Formed sets.form got exp formed)
        ∙ has_mark-change x got exp in
      elim (Bool-cases (n == set.name)) [
        | inl same ↦
            let held : sets.holds n x s ≡ has_mark x got =
              ap (λ m. sets.holds m x s) ((eq_iff n set.name).0 same) ∙ sym (got_all x) in
            ground (arith, process-holds n x, same, dropped, put, held)
        | inr other ↦ ground (arith, process-holds n x, other)
      ]

  -- When process succeeds from what the set holds, an entry that it held and that is not literally
  -- among the texts to hold is gone afterwards, even where one of these texts has it as its form.
  pub process-drops :
      (x : String)
      → sets.holds set.name x s ≡ true
      → has_mark x exp ≡ false
      → sets.holds set.name x s' ≡ false
  process-drops x held absent =
      let dropped =
        is_form-Formed sets.form x (change exp got) (change-Formed sets.form exp got got-Formed)
        ∙ has_mark-change x exp got in
      ground (arith, process-holds set.name x, dropped, held, absent, got_all x, eq_refl set.name)
