-- ===== src/Migrator/Run/Served/Handlers.antt =====
-- What the `except` branches of _provision report (tenants/migrator.py).

use mt_shards_back_test.Base.{
  ℕ, ◌≡◌, ◌≢◌, refl, Bool, true, false, if◌then◌else◌, Bool-cases, inl, inr,
}
use mt_shards_back_test.Base.Exec.{pure}
use mt_shards_back_test.Base.Exec.Ensures.{
  Ensures, Any, Ensures-pure, Ensures-throw, Ensures-any, Ensures-bind,
}
use mt_shards_back_test.Migrator.Db.{Db, TenantRow}
use mt_shards_back_test.Migrator.Errors.{Kind, Chain, is_conn_error}
use mt_shards_back_test.Migrator.Env.{Env}
use mt_shards_back_test.Migrator.Run.Result.{ResultKind, Side, Result, cas_lost, failure, rethrow}
use mt_shards_back_test.Migrator.Run.Provision.{
  record_failure, second_failure, mark_failed, provision_failed,
}
use mt_shards_back_test.Migrator.Run.Try.{Ensures-try}

-- No handler reports success.
abbrev pub Failed : Result → Db → Type 0
Failed res db = res.kind ≢ ResultKind.ok

module _ (e : Env) (pk : ℕ) (t : TenantRow) where
  failure-Served :
      {P : Db → Type 0} (k : Kind) (c : Chain)
      → Ensures P (failure e t k c) (λ res db. res.kind ≡ ResultKind.failed) Any
  unfolding failure
  failure-Served k c =
      Ensures-bind (λ _. Any) _ _ (Ensures-any _)
        (λ _. Ensures-bind (λ _. Any) _ _ (Ensures-any _) (λ bad. Ensures-pure _ (λ db h. refl)))

  cas_lost-Failed : {P : Db → Type 0} → Ensures P (cas_lost e pk) Failed Any
  unfolding cas_lost
  cas_lost-Failed =
      Ensures-bind (λ _. Any) _ _ (Ensures-any _)
        (λ _.
          Ensures-bind (λ _. Any) _ _ (Ensures-any _) (λ reason. Ensures-pure _ (λ db h. λ y. cc)))

  record_failure-Failed :
      (res : Result) (b : Bool)
      → res.kind ≡ ResultKind.failed
      → Ensures Any (record_failure e pk t res b) Failed Any
  unfolding record_failure
  record_failure-Failed res true k =
      Ensures-bind (λ _. Any) _ _ (Ensures-any _) (λ _. Ensures-pure res (λ db h y. cc))
  record_failure-Failed res false k =
      Ensures-bind Failed _ _ cas_lost-Failed (λ lost. Ensures-pure _ (λ db n. n))

  second_failure-Failed :
      (res : Result) (k : Kind) (c : Chain)
      → res.kind ≡ ResultKind.failed
      → Ensures Any (second_failure e pk t res k c) Failed Any
  unfolding second_failure rethrow
  second_failure-Failed res k c f = elim (Bool-cases (is_conn_error c)) [
    | inl y ↦ rw (y, second_failure) (Ensures-pure _ (λ db h y'. cc))
    | inr n ↦ rw (n, second_failure) (Ensures-throw _ (λ db h. tt))
  ]

  mark_failed-Failed :
      (res : Result)
      → res.kind ≡ ResultKind.failed
      → Ensures Any (mark_failed e pk t res) Failed Any
  unfolding mark_failed
  mark_failed-Failed res f =
      Ensures-try Failed _ _ _
        (Ensures-bind (λ _. Any) _ _ (Ensures-any _) (λ b. record_failure-Failed res b f))
        (λ k c. second_failure-Failed res k c f) (λ a. Ensures-pure a (λ db n. n)) (λ db h. h)

  after_failure :
      (res : Result) (claimed : Bool)
      → Ensures
          (λ db. res.kind ≡ ResultKind.failed)
          (if claimed then mark_failed e pk t res else pure res)
          Failed
          Any
  after_failure res true = record { at = λ db f. (mark_failed-Failed res f).at db tt }
  after_failure res false = Ensures-pure res (λ db f y. cc)

  pub provision_failed-Failed :
      (side : Side) (claimed : Bool) (k : Kind) (c : Chain)
      → Ensures Any (provision_failed e pk t side claimed k c) Failed Any
  unfolding provision_failed
  provision_failed-Failed side claimed k c = elim (Bool-cases (is_conn_error c)) [
    | inl y ↦ rw (y, provision_failed) (Ensures-pure _ (λ db h y'. cc))
    | inr n ↦
        rw (n, provision_failed)
          (Ensures-bind (λ res db. res.kind ≡ ResultKind.failed) _ _ (failure-Served k c)
            (λ res. after_failure res claimed))
  ]
