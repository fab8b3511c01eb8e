-- ===== src/Validators/Rules/Laws.antt =====
-- The reserved-host rules: what a stored rule is, the SQL narrowing, and what a tenant may claim.
use mt_shards_back_test.Base.{
  ◌≡◌, ◌↔◌, refl, ap, Bool, true, false, ◌&&◌, ◌||◌, List, [], ◌∷◌, ◌++◌, none, ◌==◌, ==_iff, Text,
  text_eq, text_eq_iff, starts_with, elem, any, arith, Bool-cases, inl, inr,
}
use mt_shards_back_test.Base.Chars.{strip, lstrip, rstrip, CharTable, dot}
use mt_shards_back_test.Base.Exec.{Outcome, ok, raise, Outcome-cases}
use mt_shards_back_test.Validators.Schema.{ValidationError}
use mt_shards_back_test.Validators.Host.{normalize_host, validate_hostname, validate_label}
use mt_shards_back_test.Validators.Host.Laws.{
  validate_hostname_canonical, validate_hostname-strip, validate_label_idem,
}
use mt_shards_back_test.Validators.Rules.{
  MatchType, exact, suffix, label, Rule, first_label, match_by, matches, candidate_by, candidate,
  normalize_rule, matching_rule, check_tenant_domain, validate_tenant_domain, then_check, no_base,
  then_base,
}

-- A text is its first label, or goes on after it with a dot.
first_label-start :
    (s : Text) → (text_eq s (first_label s) || starts_with s (first_label s ++ (dot ∷ []))) ≡ true
unfolding first_label text_eq starts_with
first_label-start [] = refl
first_label-start (c ∷ s) = elim (Bool-cases (c == dot)) [
  | inl y ↦ ground arith
  | inr n ↦ ground (arith, first_label-start s, ==_iff c c)
]

match_by-candidate_by :
    (m : MatchType) (val base domain : Text)
    → match_by m val base domain ≡ true
    → candidate_by m val domain ≡ true
unfolding match_by candidate_by
match_by-candidate_by exact val base domain h = h
match_by-candidate_by suffix val base domain h = h
match_by-candidate_by label val base domain h =
    let e : text_eq (first_label domain) val ≡ true = ground arith in
    rw (← (text_eq_iff (first_label domain) val).0 e) (first_label-start domain)

-- The contract of candidate_q: on a domain that is stored in canonical form it excludes no domain
-- that the rule matches.
pub candidate-matches :
    (u : CharTable) (r : Rule) (domain : Text)
    → normalize_host u domain ≡ domain
    → matches u r domain ≡ true
    → candidate u r domain ≡ true
unfolding matches candidate
candidate-matches u r domain canonical h =
    match_by-candidate_by r.match_type (normalize_host u r.value) (normalize_host u r.base_domain)
      domain (rw canonical at h)

-- Some active rule matches the host.
abbrev pub is_reserved : CharTable → List Rule → Text → Bool
is_reserved u rules host = any (λ r. r.is_active && matches u r (normalize_host u host)) rules

matching_rule-none :
    (u : CharTable) (rules : List Rule) (host : Text)
    → (matching_rule u rules host ≡ none) ↔ (is_reserved u rules host ≡ false)
unfolding matching_rule any
matching_rule-none u [] host = (λ _. refl, λ _. refl)
matching_rule-none u (r ∷ rules) host =
    let i = matching_rule-none u rules host in (λ h. ground (arith, i), λ h. ground (arith, i))

check_iff :
    (u : CharTable) (public : List Text) (rules : List Rule) (host h : Text)
    → (check_tenant_domain u public rules host ≡ ok h)
      ↔ ((host ≡ h) × (elem host public ≡ false) × (is_reserved u rules host ≡ false))
unfolding check_tenant_domain
check_iff u public rules host h =
    let i = matching_rule-none u rules host in (λ e. ground (arith, i), λ e. ground (arith, i))

-- A domain is accepted exactly when it is a valid hostname, no host of the public tenant, and no
-- active rule matches it.
pub validate_tenant_domain_iff :
    (u : CharTable) (public : List Text) (rules : List Rule) (v h : Text)
    → (validate_tenant_domain u public rules v ≡ ok h)
      ↔ ((validate_hostname u v ≡ ok h) × (elem h public ≡ false) × (is_reserved u rules h ≡ false))
unfolding validate_tenant_domain
validate_tenant_domain_iff u public rules v h = (
  λ e. split (validate_hostname u v) e,
  λ (a, b, c). rw a ((check_iff u public rules h h).1 (refl, b, c)),
)
  where
    split :
        (o : Outcome ValidationError Text)
        → then_check u public rules o ≡ ok h
        → (o ≡ ok h) × (elem h public ≡ false) × (is_reserved u rules h ≡ false)
    split (ok host) e =
        let (a, b, c) = (check_iff u public rules host h).0 e in (ap ok a, rw (← a) b, rw (← a) c)
    split (raise x) e = cc

no_base_idem :
    (u : CharTable) (v value base : Text)
    → no_base (validate_hostname u v) ≡ ok (value, base)
    → no_base (validate_hostname u value) ≡ ok (value, base)
no_base_idem u v value base e = elim (Outcome-cases (validate_hostname u v)) [
  | inl (h, p) ↦ ground (arith, validate_hostname_canonical u v h p)
  | inr (x, p) ↦ ground arith
]

then_base_idem :
    (u : CharTable) (v b value base : Text)
    → then_base u b (validate_label u v) ≡ ok (value, base)
    → then_base u base (validate_label u value) ≡ ok (value, base)
unfolding strip lstrip rstrip
then_base_idem u v b value base e = elim (Outcome-cases (validate_label u v)) [
  | inl (l, p) ↦ elim (Outcome-cases (validate_hostname u b)) [
    | inl (h, q) ↦ ground (
      arith,
      validate_label_idem u v l p,
      validate_hostname_canonical u b h q,
      validate_hostname-strip u b h q,
    )
    | inr (x, q) ↦ ground (arith, validate_label_idem u v l p)
  ]
  | inr (x, p) ↦ ground arith
]

-- What normalization stored, it stores again unchanged: saving a rule anew does not alter it.
pub normalize_rule_idem :
    (u : CharTable) (m : MatchType) (v b value base : Text)
    → normalize_rule u m v b ≡ ok (value, base)
    → normalize_rule u m value base ≡ ok (value, base)
unfolding normalize_rule
normalize_rule_idem u exact v b value base = no_base_idem u v value base
normalize_rule_idem u suffix v b value base = no_base_idem u v value base
normalize_rule_idem u label v b value base = then_base_idem u v b value base
