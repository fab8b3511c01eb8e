-- ===== src/Base/Chars/Laws.antt =====
-- The str methods leave a text alone that is made of small letters, digits and `-`, `_`, `.` only.
use mt_shards_back_test.Base.Tests.{◌==◌, &&-eq-true}
use mt_shards_back_test.Base.Texts.{Text}
use mt_shards_back_test.Base.Lists.{all}
use mt_shards_back_test.Base.Chars.{
  CharTable, is_lower, is_digit, lower_char, lower, is_space, lstrip, rstrip, strip,
}
use Prim.Native.Nat.{ℕ}
use mathlib.Core.Bool.{Bool, true, false, ◌||◌, not}
use mathlib.Core.List.{[], ◌∷◌}
use mathlib.Core.Path.{◌≡◌, refl, ap, ◌∙◌}
use native.Mathlib.Omega.{arith}

abbrev pub is_tame : ℕ → Bool
is_tame c = is_lower c || (is_digit c || (c == 45 || (c == 46 || c == 95)))

lower_char-tame : (u : CharTable) (c : ℕ) → is_tame c ≡ true → lower_char u c ≡ c ∷ []
unfolding lower_char
lower_char-tame u c h = ground arith

pub is_space-tame : (u : CharTable) (c : ℕ) → is_tame c ≡ true → is_space u c ≡ false
unfolding is_space
is_space-tame u c h = ground arith

pub lower-tame : (u : CharTable) (s : Text) → all is_tame s ≡ true → lower u s ≡ s
unfolding lower all
lower-tame u [] h = refl
lower-tame u (c ∷ s) h =
    let (hc, hs) = &&-eq-true (is_tame c) (all is_tame s) h in
    rw (lower_char-tame u c hc) (ap (◌∷◌ c) (lower-tame u s hs))

pub rstrip-none : (p : ℕ → Bool) (s : Text) → all (λ c. not (p c)) s ≡ true → rstrip p s ≡ s
unfolding rstrip all
rstrip-none p [] h = refl
rstrip-none p (c ∷ s) h = ground (arith, rstrip-none p s)

lstrip-none : (p : ℕ → Bool) (s : Text) → all (λ c. not (p c)) s ≡ true → lstrip p s ≡ s
unfolding lstrip all
lstrip-none p [] h = refl
lstrip-none p (c ∷ s) h = ground arith

no_space-tame :
    (u : CharTable) (s : Text) → all is_tame s ≡ true → all (λ c. not (is_space u c)) s ≡ true
unfolding all
no_space-tame u [] h = refl
no_space-tame u (c ∷ s) h =
    let (hc, hs) = &&-eq-true (is_tame c) (all is_tame s) h in
    ground (arith, is_space-tame u c hc, no_space-tame u s hs)

pub strip-tame : (u : CharTable) (s : Text) → all is_tame s ≡ true → strip u s ≡ s
unfolding strip
strip-tame u s h =
    let n = no_space-tame u s h in
    ap (rstrip (is_space u)) (lstrip-none (is_space u) s n) ∙ rstrip-none (is_space u) s n

-- What holds for each code point of a text that passes one test holds by another that it implies.
pub all-implies :
    (p q : ℕ → Bool) (s : Text)
    → ((c : ℕ) → p c ≡ true → q c ≡ true)
    → all p s ≡ true
    → all q s ≡ true
unfolding all
all-implies p q [] k h = refl
all-implies p q (c ∷ s) k h =
    let (hc, hs) = &&-eq-true (p c) (all p s) h in ground (arith, k c hc, all-implies p q s k hs)
