-- ===== src/Validators/Host/Laws.antt =====
-- Accepted hostnames under normalize_host and under a second validation (tenants/validators.py).
use mt_shards_back_test.Base.{
  ℕ, ◌≡◌, refl, sym, ap, ◌∙◌, Bool, true, false, not, List, [], ◌∷◌, ◌==◌, Text, all, arith,
  Bool-cases, inl, inr,
}
use mt_shards_back_test.Base.Chars.{
  CharTable, lower, strip, rstrip, is_empty, dot, split_dots, on_head,
}
use mt_shards_back_test.Base.Chars.Laws.{is_tame, lower-tame, strip-tame, all-implies}
use mt_shards_back_test.Base.Exec.{ok}
use mt_shards_back_test.Validators.Host.{
  is_ldh, label_re, normalize_host, chop_dot, check_hostname, validate_hostname, validate_label,
}

abbrev nonempty : Text → Bool
nonempty l = not (is_empty l)

abbrev tail_of : List Text → List Text
tail_of [] = []
tail_of (l ∷ ls) = ls

split-cons : (s : Text) → is_empty s ≡ true → all nonempty (split_dots s) ≡ false
unfolding split_dots all
split-cons [] h = refl
split-cons (c ∷ s) h = ground arith

tail-nonempty : (ls : List Text) → all nonempty ls ≡ true → all nonempty (tail_of ls) ≡ true
unfolding all
tail-nonempty [] h = refl
tail-nonempty (l ∷ ls) h = ground arith

tail-on_head :
    (c : ℕ) (ls : List Text)
    → all nonempty (tail_of ls) ≡ true
    → all nonempty (tail_of (on_head c ls)) ≡ true
unfolding all
tail-on_head c [] h = refl
tail-on_head c (l ∷ ls) h = h

on_head-tail :
    (c : ℕ) (ls : List Text)
    → all nonempty (tail_of (on_head c ls)) ≡ true
    → all nonempty (tail_of ls) ≡ true
unfolding all
on_head-tail c [] h = refl
on_head-tail c (l ∷ ls) h = h

-- A text whose labels after the first are not empty does not end in a dot.
no_last_dot :
    (s : Text)
    → all nonempty (tail_of (split_dots s)) ≡ true
    → (rstrip (λ c. c == dot) s ≡ s) × (chop_dot s ≡ s)
unfolding rstrip chop_dot split_dots
no_last_dot [] h = (refl, refl)
no_last_dot (c ∷ s) h = elim (Bool-cases (c == dot)) [
  | inl y ↦
      let k : all nonempty (split_dots s) ≡ true = ground arith in
      let (r, d) = no_last_dot s (tail-nonempty (split_dots s) k) in
      (ground (arith, split-cons s), ground (arith, split-cons s))
  | inr n ↦
      let k : all nonempty (tail_of (on_head c (split_dots s))) ≡ true = ground arith in
      let (r, d) = no_last_dot s (on_head-tail c (split_dots s) k) in (ground arith, ground arith)
]

abbrev all_ldh : Text → Bool
all_ldh = all is_ldh

ldh-tame : (c : ℕ) → is_ldh c ≡ true → is_tame c ≡ true
ldh-tame c h = ground arith

all-on_head :
    (c : ℕ) (ls : List Text)
    → all all_ldh (on_head c ls) ≡ true
    → (is_ldh c ≡ true) × (all all_ldh ls ≡ true)
unfolding all
all-on_head c [] h = (ground arith, refl)
all-on_head c (l ∷ ls) h = (ground arith, ground arith)

labels-tame : (s : Text) → all all_ldh (split_dots s) ≡ true → all is_tame s ≡ true
unfolding split_dots all
labels-tame [] h = refl
labels-tame (c ∷ s) h = elim (Bool-cases (c == dot)) [
  | inl y ↦ ground (arith, labels-tame s)
  | inr n ↦
      let k : all all_ldh (on_head c (split_dots s)) ≡ true = ground arith in
      let (hc, hs) = all-on_head c (split_dots s) k in
      ground (arith, ldh-tame c hc, labels-tame s hs)
]

labels-nonempty : (ls : List Text) → all label_re ls ≡ true → all nonempty ls ≡ true
unfolding all label_re
labels-nonempty [] h = refl
labels-nonempty (l ∷ ls) h = ground (arith, labels-nonempty ls)

labels-ldh : (ls : List Text) → all label_re ls ≡ true → all all_ldh ls ≡ true
unfolding all label_re
labels-ldh [] h = refl
labels-ldh (l ∷ ls) h = ground (arith, labels-ldh ls)

check-accepted :
    (s h : Text) → check_hostname s ≡ ok h → (s ≡ h) × (all label_re (split_dots h) ≡ true)
unfolding check_hostname
check-accepted s h e = ground arith

accepted-labels :
    (u : CharTable) (v h : Text)
    → validate_hostname u v ≡ ok h
    → (all label_re (split_dots h) ≡ true) × (check_hostname h ≡ ok h)
unfolding validate_hostname
accepted-labels u v h e =
    let (s, l) = check-accepted (chop_dot (lower u (strip u v))) h e in
    (l, ap check_hostname (sym s) ∙ e)

-- An accepted hostname is a fixed point of normalize_host, so that it meets the CHECK constraint of
-- the Domain table and a Host header spelled like it, and it is accepted again unchanged.
pub validate_hostname_canonical :
    (u : CharTable) (v h : Text)
    → validate_hostname u v ≡ ok h
    → (normalize_host u h ≡ h) × (validate_hostname u h ≡ ok h)
unfolding validate_hostname normalize_host
validate_hostname_canonical u v h e =
    let (l, k) = accepted-labels u v h e in
    let t = labels-tame h (labels-ldh (split_dots h) l) in
    let (r, d) = no_last_dot h (tail-nonempty (split_dots h) (labels-nonempty (split_dots h) l)) in
    (
      rw (strip-tame u h t) (rw (lower-tame u h t) r),
      rw (strip-tame u h t) (rw (lower-tame u h t) (rw d k)),
    )

-- An accepted label is accepted again unchanged.
pub validate_label_idem :
    (u : CharTable) (v l : Text) → validate_label u v ≡ ok l → validate_label u l ≡ ok l
unfolding validate_label label_re
validate_label_idem u v l e =
    let t : all is_tame l ≡ true = all-implies is_ldh is_tame l ldh-tame (ground arith) in
    rw (strip-tame u l t) (rw (lower-tame u l t) (ground arith))

-- An accepted hostname is not empty and has no space around it.
pub validate_hostname-strip :
    (u : CharTable) (v h : Text)
    → validate_hostname u v ≡ ok h
    → (strip u h ≡ h) × (is_empty h ≡ false)
unfolding check_hostname
validate_hostname-strip u v h e =
    let (l, k) = accepted-labels u v h e in
    (strip-tame u h (labels-tame h (labels-ldh (split_dots h) l)), ground arith)
