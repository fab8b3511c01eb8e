-- ===== src/Base/Exec/Finally.antt =====
-- What a `finally` clause makes of an outcome and of the state, and what an answer went through.
use mathlib.Core.Bool.{Bool, true, false}
use mathlib.Core.Logic.{◌⊎◌, inl, inr}
use mathlib.Core.Path.{◌≡◌, refl}
use mt_shards_back_test.Base.Tests.{if◌then◌else◌}
use mt_shards_back_test.Base.Exec.{Outcome, ok, raise, Exec, lift, finally, after_finally, ◌>>=◌}

after_finally-ok :
    {X S A : Type 0} (o : Outcome X A) (r : Outcome X (Unit {0})) (s : S)
    → r ≡ ok tt
    → ((after_finally o (r, s)).0 ≡ o) × ((after_finally o (r, s)).1 ≡ s)
after_finally-ok o (ok _) s h = (refl, refl)
after_finally-ok o (raise x) s h = absurd (cc)

-- A `finally` clause that returns keeps the outcome of the body.
pub finally-returned :
    {X S A : Type 0} (m : Exec X S A) (f : Outcome X A → Exec X S (Unit {0})) (s : S)
    → (f (m s).0 (m s).1).0 ≡ ok tt
    → ((finally m f s).0 ≡ (m s).0) × ((finally m f s).1 ≡ (f (m s).0 (m s).1).1)
unfolding ◌>>=◌
finally-returned m f s h = let (r, s') = f (m s).0 (m s).1 in after_finally-ok (m s).0 r s' h

after_finally-state :
    {X S A : Type 0} (o : Outcome X A) (r : Outcome X (Unit {0})) (s : S)
    → (after_finally o (r, s)).1 ≡ s
after_finally-state o (ok _) s = refl
after_finally-state o (raise x) s = refl

pub finally-state :
    {X S A : Type 0} (m : Exec X S A) (f : Outcome X A → Exec X S (Unit {0})) (s : S)
    → (finally m f s).1 ≡ (f (m s).0 (m s).1).1
unfolding finally
finally-state m f s = let (r, s') = f (m s).0 (m s).1 in after_finally-state (m s).0 r s'

-- Where two actions one after the other answer, the first answered and the second did.
pub bind-ok :
    {X S A B : Type 0} (m : Exec X S A) (f : A → Exec X S B) (b : B) (s : S)
    → ((m >>= f) s).0 ≡ ok b
    → (a : A) × ((m s).0 ≡ ok a) × ((f a (m s).1).0 ≡ ok b)
unfolding lift ◌>>=◌
bind-ok {X = X} {S = S} {A = A} m f b s h = let (o, s') = m s in answers o s' h
  where
    answers :
        (o : Outcome X A) (s' : S)
        → ((lift o >>= f) s').0 ≡ ok b
        → (a : A) × (o ≡ ok a) × ((f a s').0 ≡ ok b)
    answers (ok a) s' k = (a, refl, k)
    answers (raise x) s' k = absurd (cc)

-- Which branch answered.
pub if-answers :
    {X S A : Type 0} (b : Bool) (m n : Exec X S A) (s : S) (o : Outcome X A)
    → ((if b then m else n) s).0 ≡ o
    → ((b ≡ true) × ((m s).0 ≡ o)) ⊎ ((b ≡ false) × ((n s).0 ≡ o))
if-answers true m n s o h = inl (refl, h)
if-answers false m n s o h = inr (refl, h)

-- Where the first answers, the two are the second from there.
pub bind-runs :
    {X S A B : Type 0} (m : Exec X S A) (f : A → Exec X S B) (a : A) (s : S)
    → (m s).0 ≡ ok a
    → (m >>= f) s ≡ f a (m s).1
unfolding ◌>>=◌
bind-runs m f a s h = rw h refl
