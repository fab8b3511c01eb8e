-- ===== src/Base/Exec/Keeps.antt =====
-- Invariants of actions, with one rule for each way in which an action is built.
use mathlib.Core.Bool.{Bool, true, false}
use mathlib.Core.Path.{◌≡◌, refl}
use mt_shards_back_test.Base.Tests.{if◌then◌else◌}
use mt_shards_back_test.Base.Exec.{
  Outcome, ok, raise, Exec, pure, throw, lift, gets, modify, catch, finally, ◌>>=◌,
}

-- `m` keeps `P`, whether it returns or raises.
pub record Keeps {X S A : Type 0} (P : S → Type 0) (m : Exec X S A) : Type 0 where
  pub at : (s : S) → P s → P (m s).1

finally_keeps :
    {X S A : Type 0} (P : S → Type 0) (o : Outcome X A) (r : Outcome X (Unit {0})) (s : S)
    → P s
    → P (finally (lift o) (λ _ t. (r, t)) s).1
unfolding ◌>>=◌
finally_keeps P o (ok _) s p = p
finally_keeps P o (raise x) s p = p

module _ {X S A : Type 0} {P : S → Type 0} where
  pub Keeps-pure : (a : A) → Keeps P (pure {X = X} a)
  unfolding pure
  Keeps-pure a = record { at = λ s h. h }

  pub Keeps-throw : (x : X) → Keeps P (throw {A = A} x)
  unfolding throw
  Keeps-throw x = record { at = λ s h. h }

  pub Keeps-lift : (o : Outcome X A) → Keeps P (lift o)
  unfolding lift
  Keeps-lift o = record { at = λ s h. h }

  pub Keeps-gets : (f : S → A) → Keeps P (gets {X = X} f)
  unfolding gets
  Keeps-gets f = record { at = λ s h. h }

  pub Keeps-modify : (f : S → A × S) → ((s : S) → P s → P (f s).1) → Keeps P (modify {X = X} f)
  unfolding modify
  Keeps-modify f k = record { at = k }

  pub Keeps-if :
      (b : Bool) (m n : Exec X S A) → Keeps P m → Keeps P n → Keeps P (if b then m else n)
  Keeps-if true m n km kn = km
  Keeps-if false m n km kn = kn

  -- A branch may use the outcome of its test.
  pub Keeps-if-eq :
      (b : Bool) (m n : Exec X S A)
      → (b ≡ true → Keeps P m)
      → (b ≡ false → Keeps P n)
      → Keeps P (if b then m else n)
  Keeps-if-eq true m n km kn = km refl
  Keeps-if-eq false m n km kn = kn refl

  handler_keeps :
      (h : X → Exec X S A) (o : Outcome X A) (s : S)
      → ((x : X) → Keeps P (h x))
      → P s
      → P (catch (lift o) h s).1
  unfolding ◌>>=◌
  handler_keeps h (ok a) s kh p = p
  handler_keeps h (raise x) s kh p = (kh x).at s p

  pub Keeps-catch :
      (m : Exec X S A) (h : X → Exec X S A)
      → Keeps P m
      → ((x : X) → Keeps P (h x))
      → Keeps P (catch m h)
  unfolding ◌>>=◌
  Keeps-catch m h km kh = record {
    at = λ s p. let (o, s') = m s in handler_keeps h o s' kh (km.at s p);
  }

  pub Keeps-finally :
      (m : Exec X S A) (f : Outcome X A → Exec X S (Unit {0}))
      → Keeps P m
      → ((o : Outcome X A) → Keeps P (f o))
      → Keeps P (finally m f)
  unfolding ◌>>=◌
  Keeps-finally m f km kf = record {
    at = λ s p.
        let (o, s') = m s in
        let (r, s'') = f o s' in finally_keeps P o r s'' ((kf o).at s' (km.at s p));
  }

module _ {X S A B : Type 0} {P : S → Type 0} where
  bind_keeps :
      (o : Outcome X A) (f : A → Exec X S B) (s : S)
      → ((a : A) → Keeps P (f a))
      → P s
      → P ((lift o >>= f) s).1
  unfolding ◌>>=◌
  bind_keeps (ok a) f s kf p = (kf a).at s p
  bind_keeps (raise x) f s kf p = p

  pub Keeps-bind :
      (m : Exec X S A) (f : A → Exec X S B)
      → Keeps P m
      → ((a : A) → Keeps P (f a))
      → Keeps P (m >>= f)
  unfolding ◌>>=◌
  Keeps-bind m f km kf = record {
    at = λ s p. let (o, s') = m s in bind_keeps o f s' kf (km.at s p);
  }

pub ruleset keeps_rules = (
  Keeps-pure, Keeps-throw, Keeps-lift, Keeps-gets, Keeps-if, Keeps-catch, Keeps-finally, Keeps-bind,
)
