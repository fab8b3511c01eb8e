-- ===== src/Migrator/Run/Try.antt =====
-- The rule for a `try` block with `except Exception`.
use mt_shards_back_test.Base.Exec.{pure}
use mt_shards_back_test.Base.Exec.Ensures.{
  Ensures, Ensures-pure, Ensures-throw, Ensures-bind, Ensures-catch,
}
use mt_shards_back_test.Migrator.Db.{Db}
use mt_shards_back_test.Migrator.Errors.{Exn, exc, interrupt, Kind, Chain}
use mt_shards_back_test.Migrator.Env.{Act}
use mt_shards_back_test.Migrator.Env.Steps.{except_exception}
use mt_shards_back_test.Migrator.Run.Result.{Caught, fine, caught, attempt, try_then, on_caught}

abbrev After : {A : Type 0} → (A → Db → Type 0) → (Db → Type 0) → Caught A → Db → Type 0
After Q R (fine a) db = Q a db
After Q R (caught k c) db = R db

module _ {A : Type 0} {R R' : Db → Type 0} {Q : A → Db → Type 0} where
  caught-Ensures :
      (x : Exn)
      → ((db : Db) → R db → R' db)
      → Ensures R (except_exception {A = Caught A} (λ k c. pure (caught k c)) x) (After Q R) R'
  unfolding except_exception
  caught-Ensures (exc k c) ki = Ensures-pure _ (λ db h. h)
  caught-Ensures interrupt ki = Ensures-throw _ ki

  attempt-Ensures :
      {P : Db → Type 0} (m : Act A)
      → Ensures P m Q R
      → ((db : Db) → R db → R' db)
      → Ensures P (attempt m) (After Q R) R'
  unfolding attempt
  attempt-Ensures m km ki =
      Ensures-catch R _ _ (Ensures-bind Q _ _ km (λ a. Ensures-pure (fine a) (λ db h. h)))
        (λ x. caught-Ensures x ki)

module _ {A B : Type 0} {R R' : Db → Type 0} {T : B → Db → Type 0} where
  on_caught-Ensures :
      (Q : A → Db → Type 0) (h : Kind → Chain → Act B) (f : A → Act B) (o : Caught A)
      → ((k : Kind) (c : Chain) → Ensures R (h k c) T R')
      → ((a : A) → Ensures (Q a) (f a) T R')
      → Ensures (After Q R o) (on_caught h f o) T R'
  on_caught-Ensures Q h f (fine a) kh kf = kf a
  on_caught-Ensures Q h f (caught k c) kh kf = kh k c

  -- A handler starts from what holds beside the exception, and an interrupt passes.
  pub Ensures-try :
      {P : Db → Type 0} (Q : A → Db → Type 0) (m : Act A) (h : Kind → Chain → Act B) (f : A → Act B)
      → Ensures P m Q R
      → ((k : Kind) (c : Chain) → Ensures R (h k c) T R')
      → ((a : A) → Ensures (Q a) (f a) T R')
      → ((db : Db) → R db → R' db)
      → Ensures P (try_then m h f) T R'
  unfolding try_then
  Ensures-try Q m h f km kh kf ki =
      Ensures-bind (After Q R) _ _ (attempt-Ensures m km ki) (λ o. on_caught-Ensures Q h f o kh kf)
