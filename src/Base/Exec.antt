-- ===== src/Base/Exec.antt =====
-- Code that changes a shared state and may raise: what was written before a raise stays written.
pub mod Keeps
pub mod Finally
pub mod Ensures
use mathlib.Core.Logic.{◌⊎◌, inl, inr}
use mathlib.Core.Path.{◌≡◌, refl}

pub data Outcome (X A : Type 0) : Type 0 where
  ok : A → Outcome X A
  raise : X → Outcome X A

pub Outcome-cases :
    {X A : Type 0} (o : Outcome X A) → ((a : A) × (o ≡ ok a)) ⊎ ((x : X) × (o ≡ raise x))
Outcome-cases (ok a) = inl (a, refl)
Outcome-cases (raise x) = inr (x, refl)

abbrev pub Exec : Type 0 → Type 0 → Type 0 → Type 0
Exec X S A = S → Outcome X A × S

module _ {X S A : Type 0} where
  unfoldable pub pure : A → Exec X S A
  pure a s = (ok a, s)

  unfoldable pub throw : X → Exec X S A
  throw x s = (raise x, s)

  unfoldable pub lift : Outcome X A → Exec X S A
  lift o s = (o, s)

  unfoldable pub gets : (S → A) → Exec X S A
  gets f s = (ok (f s), s)

  -- `try: m finally: f(outcome)`: what `f` raises replaces the outcome of `m`.
  abbrev pub after_finally : Outcome X A → Outcome X (Unit {0}) × S → Outcome X A × S
  after_finally o (ok _, s) = (o, s)
  after_finally o (raise x, s) = (raise x, s)

module _ {X S A : Type 0} where
  unfoldable pub modify : (S → A × S) → Exec X S A
  modify f s = let (a, s') = f s in (ok a, s')

  unfoldable pub finally : Exec X S A → (Outcome X A → Exec X S (Unit {0})) → Exec X S A
  finally m f s = let (o, s') = m s in after_finally o (f o s')

  abbrev pub handled : (X → Exec X S A) → Outcome X A → S → Outcome X A × S
  handled h (ok a) s = (ok a, s)
  handled h (raise x) s = h x s

  -- `try: m except: h`; what `h` does not handle it raises again.
  unfoldable pub catch : Exec X S A → (X → Exec X S A) → Exec X S A
  catch m h s = let (o, s') = m s in handled h o s'

module _ {X S A B : Type 0} where
  abbrev pub continue : Outcome X A → (A → Exec X S B) → Exec X S B
  continue (ok a) f s = f a s
  continue (raise x) f s = (raise x, s)

  infixl 5 ◌>>=◌ ◌>>◌
  unfoldable pub ◌>>=◌ : Exec X S A → (A → Exec X S B) → Exec X S B
  unfolding pure throw lift gets modify catch finally
  ◌>>=◌ m f s = let (o, s') = m s in continue o f s'

  abbrev pub ◌>>◌ : Exec X S A → Exec X S B → Exec X S B
  m >> n = m >>= λ _. n
