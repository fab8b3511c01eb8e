-- ===== src/Migrator/Run/Served.antt =====
-- What stands in the tables when _provision of tenants/migrator.py reports success.
pub mod Handlers
use mathlib.Core.Path.{subst}
use mt_shards_back_test.Base.Exec.Keeps.{Keeps}
use mt_shards_back_test.Base.{
  ℕ, ◌≡◌, ◌≢◌, refl, Bool, true, false, ◌&&◌, Option, none, some, List, [], ◌∷◌, Text, arith,
  if◌then◌else◌, Bool-cases, inl, inr, &&-eq-true,
}
use mt_shards_back_test.Base.Exec.{pure, Outcome, ok, raise}
use mt_shards_back_test.Base.Exec.Ensures.{
  Ensures, Any, Ensures-pure, Ensures-throw, Ensures-any, Ensures-bind, Ensures-weaken, Ends,
  Ensures-modify, Ensures-if, Ensures-Keeps,
}
use mt_shards_back_test.Migrator.Db.{Db, TenantRow, Status, holder, owned_by}
use mt_shards_back_test.Migrator.Errors.{Exn, Kind, Chain, is_conn_error}
use mt_shards_back_test.Migrator.Lease.{fenced_cas, in_group, map_row, write_status}
use mt_shards_back_test.Migrator.Env.{Env, Act, RunOptions}
use mt_shards_back_test.Migrator.Env.Steps.{targeted, cas, forget}
use mt_shards_back_test.Migrator.Run.Result.{
  ResultKind, Reason, Side, Result, r, cas_lost, failure, rethrow,
}
use mt_shards_back_test.Migrator.Run.Provision.{
  to_active, record_failure, second_failure, mark_failed, provision_failed, activated, go_active,
  activate, migrate_claimed, after_claim, claim_tenant, refused_schema, refuse_schema,
  provision_current, provision,
}
use mt_shards_back_test.Migrator.Run.Safety.{Undisturbed, around_rows, put_at_self}
use mt_shards_back_test.Migrator.Run.Try.{Ensures-try}
use mt_shards_back_test.Migrator.Run.Served.Handlers.{Failed, provision_failed-Failed}

-- The row says ACTIVE.
abbrev pub IsActive : Option TenantRow → Type 0
IsActive none = ⊥
IsActive (some t) = t.status ≡ Status.active

-- The tenant's last invalidation is the latest of all.
abbrev pub JustForgotten : ℕ → List ℕ → Type 0
JustForgotten pk [] = ⊥
JustForgotten pk (k ∷ ks) = k ≡ pk

abbrev pub Served : ℕ → Result → Db → Type 0
Served pk res db =
    res.kind ≡ ResultKind.ok → IsActive (db.tenants pk) × JustForgotten pk db.forgotten

abbrev Written : ℕ → Bool → Db → Type 0
Written pk true db = IsActive (db.tenants pk)
Written pk false db = Unit {0}

written_row :
    (pk : ℕ) (row : Option TenantRow) (now : ℕ) (expected : List Status)
    → in_group expected row ≡ true
    → IsActive (map_row (write_status now to_active) row)
written_row pk none now expected h = ground arith
written_row pk (some t) now expected h = refl

cas-Written :
    (me : Text) (pk : ℕ) (expected : List Status) (db : Db)
    → Written pk
        (fenced_cas me pk expected to_active db).0
        (fenced_cas me pk expected to_active db).1
unfolding fenced_cas
cas-Written me pk expected db =
    elim (Bool-cases (in_group expected (db.tenants pk) && owned_by me (holder db pk))) [
      | inl y ↦
          let (g, o) =
            &&-eq-true (in_group expected (db.tenants pk)) (owned_by me (holder db pk)) y in
          rw (y, fenced_cas)
            (rw
              (put_at_self pk db.tenants (map_row (write_status db.now to_active) (db.tenants pk)))
              (written_row pk (db.tenants pk) db.now expected g))
      | inr n ↦ rw (n, fenced_cas) tt
    ]

module _ (e : Env) (q : Undisturbed e) (pk : ℕ) (t : TenantRow) where
  -- A result that reports no success, from any state.
  quiet :
      (res : Result)
      → res.kind ≢ ResultKind.ok
      → (P : Db → Type 0) → Ensures {X = Exn} P (pure res) (Served pk) Any
  quiet res n P = Ensures-pure res (λ db _ k. absurd (n k))

  skipped :
      (reason : Reason) (P : Db → Type 0)
      → Ensures {X = Exn} P (pure (r ResultKind.skipped reason)) (Served pk) Any
  skipped reason P = quiet (r ResultKind.skipped reason) (λ h. cc) P

  cas_lost-Served : {P : Db → Type 0} → Ensures P (cas_lost e pk) (Served pk) Any
  unfolding cas_lost
  cas_lost-Served =
      Ensures-bind (λ _. Any) _ _ (Ensures-any _)
        (λ _. Ensures-bind (λ _. Any) _ _ (Ensures-any _) (λ reason. skipped reason Any))

  failed_served :
      {P : Db → Type 0} (m : Act Result) → Ensures P m Failed Any → Ensures P m (Served pk) Any
  failed_served m k = Ensures-weaken m (λ _ h. h) (λ res db n y. absurd (n y)) (λ _ h. h) k

  handler :
      (side : Side) (claimed : Bool) (k : Kind) (c : Chain)
      → Ensures Any (provision_failed e pk t side claimed k c) (Served pk) Any
  handler side claimed k c = failed_served _ (provision_failed-Failed e pk t side claimed k c)

  -- The forget step keeps the row and puts the tenant first among the invalidated.
  Invalidated : Db → Type 0
  Invalidated db = IsActive (db.tenants pk) × JustForgotten pk db.forgotten

  forget-Invalidated : Ensures (λ db. IsActive (db.tenants pk)) (forget e pk) (λ _. Invalidated) Any
  unfolding forget Invalidated
  forget-Invalidated =
      let a = around_rows e (λ rows. IsActive (rows pk)) q in
      Ensures-bind (λ _ db. IsActive (db.tenants pk)) _ _ (kept _ a.link)
        (λ _.
          Ensures-bind (λ _ db. IsActive (db.tenants pk)) _ _ (kept _ (a.forget_tenant pk))
            (λ _. Ensures-modify _ (λ db h. (h, refl))))
    where
      kept :
          {A : Type 0} (m : Act A)
          → Keeps (λ db. IsActive (db.tenants pk)) m
          → Ensures (λ db. IsActive (db.tenants pk)) m (λ _ db. IsActive (db.tenants pk)) Any
      kept m k = Ensures-weaken m (λ _ h. h) (λ _ _ h. h) (λ _ _. tt) (Ensures-Keeps m k)

  activated-Served : (b : Bool) → Ensures (Written pk b) (activated e pk t b) (Served pk) Any
  unfolding activated Invalidated
  activated-Served true =
      Ensures-bind (λ _. Invalidated) _ _ forget-Invalidated (λ _. Ensures-pure _ (λ db h _. h))
  activated-Served false = cas_lost-Served

  go_active-Served : (b : Bool) → Ensures Any (go_active e pk t b) (Served pk) Any
  unfolding go_active cas
  go_active-Served true = skipped Reason.code_older_than_db Any
  go_active-Served false =
      Ensures-bind (Written pk) _ _
        (Ensures-bind (λ _. Any) _ _ (Ensures-any _)
          (λ _. Ensures-modify _ (λ db _. cas-Written e.me pk (Status.pending ∷ []) db)))
        activated-Served

  activate-Served : Ensures Any (activate e pk t) (Served pk) Any
  unfolding activate
  activate-Served =
      Ensures-try (Served pk) _ _ _ (Ensures-bind (λ _. Any) _ _ (Ensures-any _) go_active-Served)
        (handler Side.default true) (λ a. Ensures-pure a (λ db h. h)) (λ db h. h)

  migrate_claimed-Served :
      (opts : RunOptions) → Ensures Any (migrate_claimed e pk t opts) (Served pk) Any
  unfolding migrate_claimed
  migrate_claimed-Served opts =
      Ensures-try (λ _. Any) _ _ _ (Ensures-any _) (handler Side.shard true) (λ _. activate-Served)
        (λ db h. h)

  after_claim-Served :
      (opts : RunOptions) (b : Bool) → Ensures Any (after_claim e pk t opts b) (Served pk) Any
  unfolding after_claim
  after_claim-Served opts true = migrate_claimed-Served opts
  after_claim-Served opts false =
      Ensures-try (Served pk) _ _ _ cas_lost-Served (handler Side.default false)
        (λ a. Ensures-pure a (λ db h. h)) (λ db h. h)

  claim_tenant-Served : (opts : RunOptions) → Ensures Any (claim_tenant e pk t opts) (Served pk) Any
  unfolding claim_tenant
  claim_tenant-Served opts =
      Ensures-try (λ _. Any) _ _ _ (Ensures-any _) (handler Side.default false)
        (after_claim-Served opts) (λ db h. h)

  refused_schema-Served : (b : Bool) → Ensures Any (refused_schema e pk t b) (Served pk) Any
  unfolding refused_schema
  refused_schema-Served true =
      Ensures-bind (λ _. Any) _ _ (Ensures-any _)
        (λ _. quiet (r ResultKind.failed Reason.schema_exists) (λ h. cc) Any)
  refused_schema-Served false = cas_lost-Served

  refuse_schema-Served : Ensures Any (refuse_schema e pk t) (Served pk) Any
  unfolding refuse_schema
  refuse_schema-Served =
      Ensures-try (Served pk) _ _ _
        (Ensures-bind (λ _. Any) _ _ (Ensures-any _) refused_schema-Served)
        (handler Side.default false) (λ a. Ensures-pure a (λ db h. h)) (λ db h. h)

  provision_current-Served :
      (opts : RunOptions) → Ensures Any (provision_current e pk t opts) (Served pk) Any
  unfolding provision_current
  provision_current-Served opts =
      Ensures-try (λ _. Any) _ _ _ (Ensures-any _) (handler Side.shard false)
        (λ b.
          Ensures-if b (refuse_schema e pk t) (claim_tenant e pk t opts) (λ _. refuse_schema-Served)
            (λ _. claim_tenant-Served opts))
        (λ db h. h)

  not_older :
      (opts : RunOptions) (b : Bool)
      → Ensures Any
          (if b
            then pure (r ResultKind.skipped Reason.code_older_than_db)
            else provision_current e pk t opts)
          (Served pk)
          Any
  not_older opts true = skipped Reason.code_older_than_db Any
  not_older opts false = provision_current-Served opts

  provision-Served : (opts : RunOptions) → Ensures Any (provision e pk t opts) (Served pk) Any
  unfolding provision
  provision-Served opts = elim (Bool-cases (targeted opts)) [
    | inl y ↦ rw (y, provision) (skipped Reason.targeted Any)
    | inr n ↦
        rw (n, provision)
          (Ensures-try (λ _. Any) _ _ _ (Ensures-any _) (handler Side.default false)
            (not_older opts) (λ db h. h))
  ]

served_result :
    (pk : ℕ) (o : Outcome Exn Result) (db : Db) (res : Result)
    → o ≡ ok res
    → Ends (Served pk) Any o db
    → Served pk res db
served_result pk (ok a) db res h k = let e : a ≡ res = cc in subst (λ x. Served pk x db) e k
served_result pk (raise x) db res h k = absurd (cc)

-- When provisioning returns success, the tenant's row says ACTIVE and the last thing invalidated is
-- that tenant's cache entries; if nothing around it writes the rows of the tenants.
pub provision_success :
    (e : Env) (pk : ℕ) (t : TenantRow) (opts : RunOptions) (db : Db) (res : Result)
    → Undisturbed e
    → (provision e pk t opts db).0 ≡ ok res
    → res.kind ≡ ResultKind.ok
    → IsActive ((provision e pk t opts db).1.tenants pk)
      × JustForgotten pk (provision e pk t opts db).1.forgotten
provision_success e pk t opts db res q h k =
    let (o, db') = provision e pk t opts db in
    served_result pk o db' res h ((provision-Served e q pk t opts).at db tt) k
