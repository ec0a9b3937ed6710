-- ===== src/Agent/Distinct.antt =====
-- Proofs on buildIPSetNamesByPolicy and formatIPSetName of pkg/agent/police.go.
use Prim.Native.String.{◌++◌}
use Prim.Native.String.append
use text.Mathlib.TextPositions.{slice-append_left}
use Prim.Native.String.{len, slice}
use mathlib.Core.List as L
use egressgateway.Prelude.{
  ℕ, zero, suc, ◌+◌, ◌-◌, ◌≤◌, String, Bool, true, false, not, List, [], ◌∷◌, ◌≡◌, ◌∙◌, refl, arith,
  All, All-append, ◌==◌, ==_ne, sym, ap, eq_iff, if◌then◌else◌,
}
use egressgateway.Agent.Names.{
  SetName, policy_name, build_ipset_names_by_policy, format_ipset_name, text_length, take_text,
}
use egressgateway.Agent.PolicySets.{is_disabled}
use egressgateway.Agent.Diffs.{Distinct, Enabled}
use egressgateway.Agent.World.{Env}

-- texts with different beginnings of one length
prefix_ne : (p q x y : String) → len p ≡ len q → (p == q) ≡ false → (p ++ x == q ++ y) ≡ false
prefix_ne p q x y h ne = ==_ne (p ++ x) (q ++ y) (λ e.
    let one : p ≡ q =
      sym (slice-append_left p x)
      ∙ ap (λ t. slice t 0 (len p)) e
      ∙ ap (λ k. slice (q ++ y) 0 k) h
      ∙ slice-append_left q y in
    absurd (ground (arith, ne, (eq_iff p q).1 one)))

-- lists of one, two or four sets
names_differ :
    (s1 s2 s3 s4 : SetName) (v4 v6 : Bool)
    → (s1.name == s2.name) ≡ false
    → (s1.name == s3.name) ≡ false
    → (s1.name == s4.name) ≡ false
    → (s2.name == s3.name) ≡ false
    → (s2.name == s4.name) ≡ false
    → (s3.name == s4.name) ≡ false
    → Distinct (L.◌++◌ (if v4 then s1 ∷ s2 ∷ [] else []) (if v6 then s3 ∷ s4 ∷ [] else []))
names_differ s1 s2 s3 s4 true true a b c d e f =
    (ground (arith, a, b, c), (ground (arith, d, e), (ground (arith, f), (refl, tt))))
names_differ s1 s2 s3 s4 true false a b c d e f = (ground (arith, a), (refl, tt))
names_differ s1 s2 s3 s4 false true a b c d e f = (ground (arith, f), (refl, tt))
names_differ s1 s2 s3 s4 false false a b c d e f = tt

-- The sets of a policy have different names.
pub build_ipset_names_by_policy-Distinct :
    (sha1 : String → String) (ns name : String) (v4 v6 : Bool)
    → Distinct (build_ipset_names_by_policy sha1 ns name v4 v6)
unfolding build_ipset_names_by_policy format_ipset_name
build_ipset_names_by_policy-Distinct sha1 ns name v4 v6 =
    let full = policy_name ns name in
    let rest = λ (p : String). take_text (31 - text_length p) (sha1 full) in
    let ne = λ (p q : String). prefix_ne p q (rest p) (rest q) in
    let a = ne "egress-src-v4-" "egress-dst-v4-" refl refl in
    let b = ne "egress-src-v4-" "egress-src-v6-" refl refl in
    let c = ne "egress-src-v4-" "egress-dst-v6-" refl refl in
    let d = ne "egress-dst-v4-" "egress-src-v6-" refl refl in
    let e = ne "egress-dst-v4-" "egress-dst-v6-" refl refl in
    let f = ne "egress-src-v6-" "egress-dst-v6-" refl refl in names_differ _ _ _ _ v4 v6 a b c d e f

All-if :
    {A : Type 0} (P : A → Type 0) (b : Bool) (xs : List A)
    → (b ≡ true → All P xs)
    → All P (if b then xs else [])
All-if P true xs h = h refl
All-if P false xs h = tt

-- The sets of a policy are of versions that are enabled.
pub build_ipset_names_by_policy-Enabled :
    {S : Type 0} (env : Env S) (ns name : String)
    → Enabled env
        (build_ipset_names_by_policy env.sha1 ns name env.cfg.enable_ipv4 env.cfg.enable_ipv6)
unfolding build_ipset_names_by_policy
build_ipset_names_by_policy-Enabled env ns name =
    let P = λ (set : SetName). is_disabled env set.stack ≡ false in
    All-append P _ _ (All-if P env.cfg.enable_ipv4 _ (λ on. (ap not on, (ap not on, tt))))
      (All-if P env.cfg.enable_ipv6 _ (λ on. (ap not on, (ap not on, tt))))

pub text_length-append : (s t : String) → text_length (s ++ t) ≡ text_length s + text_length t
unfolding text_length
text_length-append String.[] t = ap text_length (append.nil t) ∙ omega arith
text_length-append (String.◌∷◌ c s) t =
    ap text_length (append.cons c s t) ∙ omega (arith, text_length-append s t)

text_length-take_text : (n : ℕ) (s : String) → n ≤ text_length s → text_length (take_text n s) ≡ n
unfolding text_length take_text
text_length-take_text zero s h = refl
text_length-take_text (suc n) String.[] h = absurd (omega (arith, h))
text_length-take_text (suc n) (String.◌∷◌ c s) h =
    omega (arith, text_length-take_text n s (omega (arith, h)))

-- A set's name has 31 characters, which is as much as ipset takes, where the hash has at least as
-- many and the prefix no more.
pub format_ipset_name-length :
    (sha1 : String → String) (prefix name : String)
    → text_length prefix ≤ 31
    → 31 ≤ text_length (sha1 name)
    → text_length (format_ipset_name sha1 prefix name) ≡ 31
unfolding format_ipset_name
format_ipset_name-length sha1 prefix name h k =
    let taken = text_length-take_text (31 - text_length prefix) (sha1 name) (omega (arith, h, k)) in
    omega
      (arith, h, taken, text_length-append prefix (take_text (31 - text_length prefix) (sha1 name)))
