-- ===== src/Base/Exec/Ensures.antt =====
-- What holds when an action returns, and when it raises, from a precondition.
use mathlib.Core.Bool.{Bool, true, false}
use mathlib.Core.Path.{◌≡◌, refl}
use mt_shards_back_test.Base.Tests.{if◌then◌else◌}
use mt_shards_back_test.Base.Exec.{
  Outcome, ok, raise, Exec, pure, throw, gets, modify, catch, finally, ◌>>=◌, continue, handled,
  after_finally,
}
use mt_shards_back_test.Base.Exec.Keeps.{Keeps}

-- `Q` of what was returned and the state, or `R` of the state beside an exception.
abbrev pub Ends : {X S A : Type 0} → (A → S → Type 0) → (S → Type 0) → Outcome X A → S → Type 0
Ends Q R (ok a) s = Q a s
Ends Q R (raise x) s = R s

pub record Ensures {X S A : Type 0} (P : S → Type 0) (m : Exec X S A) (Q : A → S → Type 0)
    (R : S → Type 0) : Type 0 where
  pub at : (s : S) → P s → Ends Q R (m s).0 (m s).1

abbrev pub Any : {S : Type 0} → S → Type 0
Any s = Unit {0}

module _ {X S A : Type 0} {P : S → Type 0} {Q : A → S → Type 0} {R : S → Type 0} where
  pub Ensures-pure : (a : A) → ((s : S) → P s → Q a s) → Ensures {X = X} P (pure a) Q R
  unfolding pure
  Ensures-pure a k = record { at = k }

  pub Ensures-throw : (x : X) → ((s : S) → P s → R s) → Ensures P (throw x) Q R
  unfolding throw
  Ensures-throw x k = record { at = k }

  pub Ensures-gets : (f : S → A) → ((s : S) → P s → Q (f s) s) → Ensures {X = X} P (gets f) Q R
  unfolding gets
  Ensures-gets f k = record { at = k }

  pub Ensures-modify :
      (f : S → A × S) → ((s : S) → P s → Q (f s).0 (f s).1) → Ensures {X = X} P (modify f) Q R
  unfolding modify
  Ensures-modify f k = record { at = k }

  pub Ensures-if :
      (b : Bool) (m n : Exec X S A)
      → (b ≡ true → Ensures P m Q R)
      → (b ≡ false → Ensures P n Q R)
      → Ensures P (if b then m else n) Q R
  Ensures-if true m n km kn = km refl
  Ensures-if false m n km kn = kn refl

keeps-Ends : {X S A : Type 0} (P : S → Type 0) (o : Outcome X A) (s : S) → P s → Ends (λ _. P) P o s
keeps-Ends P (ok a) s p = p
keeps-Ends P (raise x) s p = p

any-Ends : {X S A : Type 0} (o : Outcome X A) (s : S) → Ends (λ _. Any) Any o s
any-Ends (ok a) s = tt
any-Ends (raise x) s = tt

module _ {X S A : Type 0} {P : S → Type 0} where
  pub Ensures-Keeps : (m : Exec X S A) → Keeps P m → Ensures P m (λ _. P) P
  Ensures-Keeps m k = record { at = λ s p. keeps-Ends P (m s).0 (m s).1 (k.at s p) }

  pub Ensures-any : (m : Exec X S A) → Ensures P m (λ _. Any) Any
  Ensures-any m = record { at = λ s p. any-Ends (m s).0 (m s).1 }

bind-Ends :
    {X S A B : Type 0} (Q : A → S → Type 0) (T : B → S → Type 0) (R : S → Type 0) (o : Outcome X A)
    (f : A → Exec X S B) (s : S)
    → ((a : A) → Ensures (Q a) (f a) T R)
    → Ends Q R o s
    → Ends T R (continue o f s).0 (continue o f s).1
bind-Ends Q T R (ok a) f s kf h = (kf a).at s h
bind-Ends Q T R (raise x) f s kf h = h

handled-Ends :
    {X S A : Type 0} (Q : A → S → Type 0) (R R' : S → Type 0) (o : Outcome X A) (h : X → Exec X S A)
    (s : S)
    → ((x : X) → Ensures R (h x) Q R')
    → Ends Q R o s
    → Ends Q R' (handled h o s).0 (handled h o s).1
handled-Ends Q R R' (ok a) h s kh k = k
handled-Ends Q R R' (raise x) h s kh k = (kh x).at s k

module _ {X S A B : Type 0} {P : S → Type 0} {T : B → S → Type 0} {R : S → Type 0} where
  pub Ensures-bind :
      (Q : A → S → Type 0) (m : Exec X S A) (f : A → Exec X S B)
      → Ensures P m Q R
      → ((a : A) → Ensures (Q a) (f a) T R)
      → Ensures P (m >>= f) T R
  unfolding ◌>>=◌
  Ensures-bind Q m f km kf = record {
    at = λ s p. let (o, s') = m s in bind-Ends Q T R o f s' kf (km.at s p);
  }

module _ {X S A : Type 0} {P : S → Type 0} {Q : A → S → Type 0} {R' : S → Type 0} where
  pub Ensures-catch :
      (R : S → Type 0) (m : Exec X S A) (h : X → Exec X S A)
      → Ensures P m Q R
      → ((x : X) → Ensures R (h x) Q R')
      → Ensures P (catch m h) Q R'
  unfolding ◌>>=◌
  Ensures-catch R m h km kh = record {
    at = λ s p. let (o, s') = m s in handled-Ends Q R R' o h s' kh (km.at s p);
  }

ok-Ends :
    {X S A : Type 0} (Q : A → S → Type 0) (a : A) (o : Outcome X (Unit {0})) (s : S)
    → Ends (λ _. Q a) Any o s
    → Ends Q Any (after_finally (ok a) (o, s)).0 (after_finally (ok a) (o, s)).1
ok-Ends Q a (ok _) s h = h
ok-Ends Q a (raise x) s h = tt

raise-Ends :
    {X S A : Type 0} (Q : A → S → Type 0) (x : X) (o : Outcome X (Unit {0})) (s : S)
    → Ends Q Any
        (after_finally {A = A} (raise x) (o, s)).0
        (after_finally {A = A} (raise x) (o, s)).1
raise-Ends Q x (ok _) s = tt
raise-Ends Q x (raise y) s = tt

after_body :
    {X S A : Type 0} (Q : A → S → Type 0) (o : Outcome X A) (f : Outcome X A → Exec X S (Unit {0}))
    (s : S)
    → ((a : A) → Ensures Any (f (ok a)) (λ _. Q a) Any)
    → Ends Q Any (after_finally o (f o s)).0 (after_finally o (f o s)).1
after_body Q (ok a) f s k = let (o, s') = f (ok a) s in ok-Ends Q a o s' ((k a).at s tt)
after_body Q (raise x) f s k = let (o, s') = f (raise x) s in raise-Ends Q x o s'

module _ {X S A : Type 0} {P : S → Type 0} {Q : A → S → Type 0} where
  -- What the `finally` clause ensures after a body that returned.
  pub Ensures-finally :
      (m : Exec X S A) (f : Outcome X A → Exec X S (Unit {0}))
      → ((a : A) → Ensures Any (f (ok a)) (λ _. Q a) Any)
      → Ensures P (finally m f) Q Any
  unfolding ◌>>=◌
  Ensures-finally m f k = record { at = λ s p. let (o, s') = m s in after_body Q o f s' k }

-- Weakening on both sides.
weak-Ends :
    {X S A : Type 0} (Q Q' : A → S → Type 0) (R R' : S → Type 0) (o : Outcome X A) (s : S)
    → ((a : A) → Q a s → Q' a s)
    → (R s → R' s)
    → Ends Q R o s
    → Ends Q' R' o s
weak-Ends Q Q' R R' (ok a) s kq kr h = kq a h
weak-Ends Q Q' R R' (raise x) s kq kr h = kr h

module _ {X S A : Type 0} {P P' : S → Type 0} {Q Q' : A → S → Type 0} {R R' : S → Type 0} where
  pub Ensures-weaken :
      (m : Exec X S A)
      → ((s : S) → P' s → P s)
      → ((a : A) (s : S) → Q a s → Q' a s)
      → ((s : S) → R s → R' s)
      → Ensures P m Q R
      → Ensures P' m Q' R'
  Ensures-weaken m kp kq kr h = record {
    at = λ s p.
        weak-Ends Q Q' R R' (m s).0 (m s).1 (λ a. kq a (m s).1) (kr (m s).1) (h.at s (kp s p));
  }
