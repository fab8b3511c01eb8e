-- ===== src/Migrator/Run/Result.antt =====
-- tenants/migrator.py: Result, Reason and the helpers `_gate`, `_cas_lost` and `_failure`.
use mt_shards_back_test.Base.{
  ℕ, Bool, not, ◌&&◌, ◌||◌, Option, none, some, List, [], Text, if◌then◌else◌,
}
use mt_shards_back_test.Base.Exec.{pure, throw, gets, catch, ◌>>=◌, ◌>>◌}
use mt_shards_back_test.Migrator.Db.{Db, TenantRow, Status, status_eq, status_in, holder, owned_by}
use mt_shards_back_test.Migrator.Errors.{exc, Kind, Chain, is_lock_timeout}
use mt_shards_back_test.Migrator.Env.{Env, Act, RunOptions}
use mt_shards_back_test.Migrator.Env.Steps.{upgradable_statuses, except_exception}

pub data ResultKind : Type 0 where
  ok noop failed skipped : ResultKind

pub data Reason : Type 0 where
  applied resumed targeted up_to_date locked status_failed status_maintenance : Reason
  status_changed lease_lost tenant_deleted code_older_than_db schema_missing : Reason
  schema_exists lock_timeout migration_error incomplete_after_run conn_error : Reason
  default_shard_anomaly : Reason

pub data Side : Type 0 where
  shard default : Side

-- Result without its two names, the message for humans and the duration.
pub record Result : Type 0 where
  pub kind : ResultKind
  pub reason : Reason
  pub conn_error : Option Side
  pub invalid_indexes : List Text

abbrev pub r : ResultKind → Reason → Result
r kind reason = record { kind = kind; reason = reason; conn_error = none; invalid_indexes = [] }

abbrev pub lost_conn : Side → Result
lost_conn side = record {
  kind = ResultKind.failed;
  reason = Reason.conn_error;
  conn_error = some side;
  invalid_indexes = [];
}

-- The outcome of a `try` block, before its `except Exception` is chosen.
pub data Caught (A : Type 0) : Type 0 where
  fine : A → Caught A
  caught : Kind → Chain → Caught A

unfoldable pub attempt : {A : Type 0} → Act A → Act (Caught A)
unfolding except_exception
attempt m = catch (m >>= λ a. pure (fine a)) (except_exception (λ k c. pure (caught k c)))

abbrev pub on_caught : {A B : Type 0} → (Kind → Chain → Act B) → (A → Act B) → Caught A → Act B
on_caught h f (fine a) = f a
on_caught h f (caught k c) = h k c

-- `try: m` with `except Exception: h`, and what follows `m` in the same block, which has handlers
-- of its own.
unfoldable pub try_then : {A B : Type 0} → Act A → (Kind → Chain → Act B) → (A → Act B) → Act B
unfolding attempt
try_then m h f = attempt m >>= on_caught h f

unfoldable pub gate : RunOptions → TenantRow → Option Result
gate opts t =
    if status_eq t.status Status.failed
    then some (r ResultKind.skipped Reason.status_failed)
    else if status_eq t.status Status.maintenance && not opts.maintenance
    then some (r ResultKind.skipped Reason.status_maintenance)
    else none

unfoldable pub upgradable : RunOptions → TenantRow → Bool
upgradable opts t =
    status_in t.status upgradable_statuses
    || (status_eq t.status Status.maintenance && opts.maintenance)

abbrev pub lost_reason : Text → ℕ → Db → Reason
lost_reason me pk db = elim (db.tenants pk) [
  | none ↦ Reason.tenant_deleted
  | some t ↦ if not (owned_by me (holder db pk)) then Reason.lease_lost else Reason.status_changed
]

unfoldable pub cas_lost : Env → ℕ → Act Result
cas_lost e pk = do e.link; reason ← gets (lost_reason e.me pk); pure (r ResultKind.skipped reason)

abbrev pub failure_reason : Kind → Chain → Reason
failure_reason (Kind.incomplete n) c =
    if is_lock_timeout c then Reason.lock_timeout else Reason.incomplete_after_run
failure_reason Kind.tenant_missing c =
    if is_lock_timeout c then Reason.lock_timeout else Reason.migration_error
failure_reason Kind.shard_unavailable c =
    if is_lock_timeout c then Reason.lock_timeout else Reason.migration_error
failure_reason Kind.disappeared c =
    if is_lock_timeout c then Reason.lock_timeout else Reason.migration_error
failure_reason Kind.other c =
    if is_lock_timeout c then Reason.lock_timeout else Reason.migration_error

unfoldable pub failure : Env → TenantRow → Kind → Chain → Act Result
failure e t k c = do
  e.close_shard t.alias
  bad ← e.invalid_indexes t.alias t.schema_name
  pure (record {
    kind = ResultKind.failed;
    reason = failure_reason k c;
    conn_error = none;
    invalid_indexes = bad;
  })

unfoldable pub rethrow : {A : Type 0} → Kind → Chain → Act A
rethrow k c = throw (exc k c)
