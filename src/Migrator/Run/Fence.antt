-- ===== src/Migrator/Run/Fence.antt =====
-- The five status writes of tenants/migrator.py, and what keeps an invariant of the tables: those
-- writes, a claim and a release of the own lease, and the surroundings.
pub mod Writes
pub mod Tenant
use mt_shards_back_test.Base.{
  ℕ, ◌≡◌, refl, Bool, true, false, not, ◌&&◌, ◌||◌, Option, none, some, List, [], ◌∷◌, Text, arith,
  if◌then◌else◌,
}
use mt_shards_back_test.Base.Exec.{
  Outcome, ok, raise, Exec, pure, throw, modify, ◌>>=◌, ◌>>◌, catch, finally,
}
use mt_shards_back_test.Base.Exec.Keeps.{
  Keeps, keeps_rules, Keeps-modify, Keeps-if-eq, Keeps-bind, Keeps-catch, Keeps-pure, Keeps-throw,
  Keeps-if, Keeps-gets,
}
use mt_shards_back_test.Validators.Schema.{quote_schema}
use mt_shards_back_test.Migrator.Db.{Db, TenantRow, Status, LastError, status_eq, status_in}
use mt_shards_back_test.Migrator.Errors.{Exn, exc, interrupt, Kind, Chain}
use mt_shards_back_test.Migrator.Lease.{Fields, fenced_cas, upsert, lease_release, lease_holder}
use mt_shards_back_test.Migrator.Env.{Env, Act, RunOptions}
use mt_shards_back_test.Migrator.Env.Steps.{
  provisionable, upgradable_statuses, targeted, except_exception, Refusal, lease_holder_now,
  probe_failed, claim, refuse_busy, lease_acquire, release, cas, note_forgotten, forget, found,
  load, pending_plan, code_older_than_db,
}
use mt_shards_back_test.Migrator.Run.Result.{
  ResultKind, Reason, Side, Result, r, lost_conn, Caught, fine, caught, attempt, on_caught,
  try_then, gate, upgradable, cas_lost, failure, rethrow,
}
use mt_shards_back_test.Migrator.Run.Provision.{to_pending, to_active, to_failed, provision}

-- The status writes of the migrator: the statuses that it expects, and what it writes.
pub data Write : List Status → Fields → Type 0 where
  claimed : Write provisionable to_pending
  activated : Write (Status.pending ∷ []) to_active
  foreign : Write (Status.new ∷ []) (to_failed Status.new LastError.schema_exists_text)
  broken : Write (Status.pending ∷ []) (to_failed Status.pending LastError.traceback_text)
  gone :
      (s : Status)
      → status_in s upgradable_statuses ≡ true
      → Write (s ∷ []) (to_failed s LastError.schema_missing_text)

-- What `P` has to survive of the surroundings.
pub record Around (e : Env) (P : Db → Type 0) : Type 0 where
  pub link : Keeps P e.link
  pub session_active : (a : Text) (k : ℕ) → Keeps P (e.session_active a k)
  pub schema_exists : (a s : Text) → Keeps P (e.schema_exists a s)
  pub migration_plan : (a s : Text) → Keeps P (e.migration_plan a s)
  pub has_relations : (a s : Text) → Keeps P (e.has_relations a s)
  pub shard_cursor : (a : Text) → Keeps P (e.shard_cursor a)
  pub create_schema : (a s : Text) → Keeps P (e.create_schema a s)
  pub open_shard : (a : Text) (k : ℕ) → Keeps P (e.open_shard a k)
  pub close_shard : (a : Text) → Keeps P (e.close_shard a)
  pub run_migrations : (a s : Text) (o : RunOptions) → Keeps P (e.run_migrations a s o)
  pub invalid_indexes : (a s : Text) → Keeps P (e.invalid_indexes a s)
  pub forget_tenant : (k : ℕ) → Keeps P (e.forget_tenant k)
  pub applied_migrations : Keeps P e.applied_migrations

-- What `P` has to survive in a run for tenant `pk`: the surroundings, and the run's own writes.
pub record Survives (e : Env) (pk : ℕ) (P : Db → Type 0) : Type 0 where
  pub around : Around e P
  pub open around use *
  pub takes : (db : Db) → P db → P (upsert e.me pk db).1
  pub gives : (db : Db) → P db → P (lease_release e.me pk db).1
  pub notes : (db : Db) → P db → P (note_forgotten pk db).1
  pub writes :
      (expected : List Status) (f : Fields)
      → Write expected f
      → (db : Db) → P db
      → P (fenced_cas e.me pk expected f db).1

module _ {e : Env} {pk : ℕ} {P : Db → Type 0} (s : Survives e pk P) where
  pub exception-Keeps :
      {A : Type 0} (h : Kind → Chain → Act A) (x : Exn)
      → ((k : Kind) (c : Chain) → Keeps P (h k c))
      → Keeps P (except_exception h x)
  unfolding except_exception
  exception-Keeps h (exc k c) kh = kh k c
  exception-Keeps h interrupt kh = Keeps-throw interrupt

  pub attempt-Keeps : {A : Type 0} (m : Act A) → Keeps P m → Keeps P (attempt m)
  unfolding attempt
  attempt-Keeps m k =
      Keeps-catch _ _ (Keeps-bind _ _ k (λ a. Keeps-pure _))
        (λ x. exception-Keeps _ x (λ k c. Keeps-pure _))

  pub on_caught-Keeps :
      {A B : Type 0} (h : Kind → Chain → Act B) (f : A → Act B) (o : Caught A)
      → ((k : Kind) (c : Chain) → Keeps P (h k c))
      → ((a : A) → Keeps P (f a))
      → Keeps P (on_caught h f o)
  on_caught-Keeps h f (fine a) kh kf = kf a
  on_caught-Keeps h f (caught k c) kh kf = kh k c

  pub try_then-Keeps :
      {A B : Type 0} (m : Act A) (h : Kind → Chain → Act B) (f : A → Act B)
      → Keeps P m
      → ((k : Kind) (c : Chain) → Keeps P (h k c))
      → ((a : A) → Keeps P (f a))
      → Keeps P (try_then m h f)
  unfolding try_then
  try_then-Keeps m h f km kh kf =
      Keeps-bind _ _ (attempt-Keeps m km) (λ o. on_caught-Keeps h f o kh kf)

  pub lease_holder_now-Keeps : (k : ℕ) → Keeps P (lease_holder_now e k)
  unfolding lease_holder_now
  lease_holder_now-Keeps k = search (keeps_rules, s.link)

  pub cas-Keeps :
      (expected : List Status) (f : Fields) → Write expected f → Keeps P (cas e pk expected f)
  unfolding cas
  cas-Keeps expected f w = Keeps-bind _ _ s.link (λ _. Keeps-modify _ (s.writes expected f w))

  pub forget-Keeps : Keeps P (forget e pk)
  unfolding forget
  forget-Keeps =
      Keeps-bind _ _ s.link (λ _. Keeps-bind _ _ (s.forget_tenant pk) (λ _. Keeps-modify _ s.notes))

  pub release-Keeps : Keeps P (release e pk)
  unfolding release
  release-Keeps = Keeps-bind _ _ s.link (λ _. Keeps-modify _ s.gives)

  pub upsert-Keeps : Keeps {X = Exn} P (modify (upsert e.me pk))
  upsert-Keeps = Keeps-modify _ s.takes

  claim-Keeps : Keeps P (claim e pk)
  unfolding claim
  claim-Keeps = Keeps-bind _ _ s.link (λ _. Keeps-bind _ _ upsert-Keeps (λ won.
      Keeps-if won _ _ (Keeps-pure _)
        (Keeps-bind _ _ (lease_holder_now-Keeps pk) (λ h. Keeps-pure _))))

  refuse_busy-Keeps : Keeps P (refuse_busy e pk)
  unfolding refuse_busy
  refuse_busy-Keeps = Keeps-bind _ _ (lease_holder_now-Keeps pk) (λ h. Keeps-pure _)

  probe_failed-Keeps : (k : Kind) (c : Chain) → Keeps P (probe_failed k c)
  unfolding probe_failed
  probe_failed-Keeps k c = search keeps_rules

  pub lease_acquire-Keeps : (a : Text) → Keeps P (lease_acquire e pk a)
  unfolding lease_acquire
  lease_acquire-Keeps a = Keeps-bind _ _ s.link (λ _.
      Keeps-bind _ _
        (Keeps-catch _ _ (s.session_active a pk) (λ x. exception-Keeps _ x probe_failed-Keeps))
        (λ busy. Keeps-if busy _ _ refuse_busy-Keeps claim-Keeps))

  pub found-Keeps : (o : Option TenantRow) → Keeps P (found o)
  unfolding found
  found-Keeps none = search keeps_rules
  found-Keeps (some t) = search keeps_rules

  pub load-Keeps : Keeps P (load e pk)
  unfolding load
  load-Keeps = Keeps-bind _ _ s.link (λ _. Keeps-bind _ _ (Keeps-gets _) found-Keeps)

  pub pending_plan-Keeps : (t : TenantRow) → Keeps P (pending_plan e t)
  unfolding pending_plan
  pending_plan-Keeps t = search (keeps_rules, s.schema_exists, s.migration_plan, s.close_shard)

  pub code_older-Keeps : Keeps P (code_older_than_db e)
  unfolding code_older_than_db
  code_older-Keeps = search (keeps_rules, s.link, s.applied_migrations)

  pub cas_lost-Keeps : Keeps P (cas_lost e pk)
  unfolding cas_lost
  cas_lost-Keeps = Keeps-bind _ _ s.link (λ _. Keeps-bind _ _ (Keeps-gets _) (λ a. Keeps-pure _))

  pub failure-Keeps : (t : TenantRow) (k : Kind) (c : Chain) → Keeps P (failure e t k c)
  unfolding failure
  failure-Keeps t k c = search (keeps_rules, s.close_shard, s.invalid_indexes)

  pub rethrow-Keeps : {A : Type 0} (k : Kind) (c : Chain) → Keeps P (rethrow {A = A} k c)
  unfolding rethrow
  rethrow-Keeps k c = search keeps_rules
