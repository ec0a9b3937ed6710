-- ===== src/Ip/Diff.antt =====
-- Proofs on IPsDiffSet of pkg/utils/ip/ip.go.
use mathlib.Core.List.{Perm, Permᴰ}
use mathlib.Core.Logic.{∥∥₁_elim}
use egressgateway.Prelude.{
  ℕ, zero, suc, String, ◌≡◌, refl, ◌∙◌, Bool, true, false, not, ◌&&◌, ◌||◌, ◌==◌, eq_iff, List, [],
  ◌∷◌, map, some, arith, get_elem?,
}
use egressgateway.Ip.Address.{Ip, nil, v4, v6}
use egressgateway.Ip.Text.{NetText, Host, IsRuntime}
use egressgateway.Ip.Range.{has_mark, add_mark, delete_mark, mark_all, unmark_all, ips_diff_set}

-- whether the text is that of an address of the list; nil has none
unfoldable pub is_named : NetText → String → List Ip → Bool
is_named t k [] = false
is_named t k (nil ∷ ips) = is_named t k ips
is_named t k (v4 n ∷ ips) = k == t.ip_string (v4 n) || is_named t k ips
is_named t k (v6 n ∷ ips) = k == t.ip_string (v6 n) || is_named t k ips

pub has_mark-add_mark :
    (k j : String) (marks : List String)
    → has_mark k (add_mark j marks) ≡ (k == j || has_mark k marks)
unfolding has_mark add_mark
has_mark-add_mark k j marks = ground (arith, eq_iff k j)

pub has_mark-delete_mark :
    (k j : String) (marks : List String)
    → has_mark k (delete_mark j marks) ≡ (not (k == j) && has_mark k marks)
unfolding has_mark delete_mark
has_mark-delete_mark k j [] = ground arith
has_mark-delete_mark k j (i ∷ marks) =
    ground (arith, has_mark-delete_mark k j marks, eq_iff k j, eq_iff k i, eq_iff j i)

module _ (t : NetText) (k : String) where
  has_mark-mark_all :
      (ips : List Ip) (marks : List String)
      → has_mark k (mark_all t ips marks) ≡ (is_named t k ips || has_mark k marks)
  unfolding mark_all is_named
  has_mark-mark_all [] marks = refl
  has_mark-mark_all (nil ∷ ips) marks = has_mark-mark_all ips marks
  has_mark-mark_all (v4 n ∷ ips) marks = ground (
    arith,
    has_mark-mark_all ips (add_mark (t.ip_string (v4 n)) marks),
    has_mark-add_mark k (t.ip_string (v4 n)) marks,
  )
  has_mark-mark_all (v6 n ∷ ips) marks = ground (
    arith,
    has_mark-mark_all ips (add_mark (t.ip_string (v6 n)) marks),
    has_mark-add_mark k (t.ip_string (v6 n)) marks,
  )

  has_mark-unmark_all :
      (ips : List Ip) (marks : List String)
      → has_mark k (unmark_all t ips marks) ≡ (not (is_named t k ips) && has_mark k marks)
  unfolding unmark_all is_named
  has_mark-unmark_all [] marks = refl
  has_mark-unmark_all (nil ∷ ips) marks = has_mark-unmark_all ips marks
  has_mark-unmark_all (v4 n ∷ ips) marks = ground (
    arith,
    has_mark-unmark_all ips (delete_mark (t.ip_string (v4 n)) marks),
    has_mark-delete_mark k (t.ip_string (v4 n)) marks,
  )
  has_mark-unmark_all (v6 n ∷ ips) marks = ground (
    arith,
    has_mark-unmark_all ips (delete_mark (t.ip_string (v6 n)) marks),
    has_mark-delete_mark k (t.ip_string (v6 n)) marks,
  )

has_mark-Permᴰ : (k : String) {xs ys : List String} → Permᴰ xs ys → has_mark k xs ≡ has_mark k ys
unfolding has_mark
has_mark-Permᴰ k Permᴰ.nil = refl
has_mark-Permᴰ k (Permᴰ.cons e p) = ground (arith, has_mark-Permᴰ k p)
has_mark-Permᴰ k (Permᴰ.swap e f) = ground arith
has_mark-Permᴰ k (Permᴰ.trans p q) = has_mark-Permᴰ k p ∙ has_mark-Permᴰ k q

has_mark-Perm : (k : String) {xs ys : List String} → Perm xs ys → has_mark k xs ≡ has_mark k ys
has_mark-Perm k p = ∥∥₁_elim p (λ x y. hlevel) (λ d. has_mark-Permᴰ k d)

get_elem?-map :
    (f : String → Ip) (xs : List String) (i : ℕ) (ip : Ip)
    → get_elem? (map f xs) i ≡ some ip
    → (k : String) × (ip ≡ f k) × (has_mark k xs ≡ true)
unfolding has_mark
get_elem?-map f [] i ip h = cc
get_elem?-map f (x ∷ xs) zero ip h = (x, ground arith, ground (arith, eq_iff x x))
get_elem?-map f (x ∷ xs) (suc i) ip h =
    let (k, e, m) = get_elem?-map f xs i ip h in (k, e, ground arith)

module _ (h : Host) (law : IsRuntime h.runtime) (ips1 ips2 : List Ip) where
  -- the keys that IPsDiffSet ranges over
  abbrev pub diff_keys : List String
  diff_keys = h.runtime.range_keys (unmark_all h.text ips2 (mark_all h.text ips1 []))

  pub has_mark-diff_keys :
      (k : String) → has_mark k diff_keys ≡ (is_named h.text k ips1 && not (is_named h.text k ips2))
  unfolding has_mark
  has_mark-diff_keys k = ground (
    arith,
    has_mark-Perm k (law.range_perm (unmark_all h.text ips2 (mark_all h.text ips1 []))),
    has_mark-unmark_all h.text k ips2 (mark_all h.text ips1 []),
    has_mark-mark_all h.text k ips1 [],
  )

  -- Whatever the order of the keys, each address that IPsDiffSet gives, not sorted, is what ParseIP
  -- reads from a text that names an address of the first list and none of the second.
  pub ips_diff_set_lem :
      (i : ℕ) (ip : Ip)
      → get_elem? (ips_diff_set h ips1 ips2 false) i ≡ some ip
      → (k : String) × (ip ≡ h.text.parse_ip k)
        × (is_named h.text k ips1 ≡ true)
        × (is_named h.text k ips2 ≡ false)
  unfolding ips_diff_set
  ips_diff_set_lem i ip e =
      let (k, p, m) = get_elem?-map h.text.parse_ip diff_keys i ip e in
      let both = has_mark-diff_keys k in (k, p, ground arith, ground arith)
