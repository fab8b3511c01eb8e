-- ===== src/Migrator/Run/Provision.antt =====
-- tenants/migrator.py, `_provision`: NEW or PENDING to ACTIVE. Each stage has the values of the
-- locals `side` and `claimed` that the `except` clause would see.
use mt_shards_back_test.Base.{
  ℕ, Bool, true, false, not, ◌&&◌, Option, none, some, List, [], ◌∷◌, Text, if◌then◌else◌, length,
}
use mt_shards_back_test.Base.Exec.{ok, raise, pure, throw, ◌>>=◌, ◌>>◌}
use mt_shards_back_test.Validators.Schema.{quote_schema}
use mt_shards_back_test.Migrator.Db.{TenantRow, Status, LastError, status_eq}
use mt_shards_back_test.Migrator.Errors.{exc, Kind, Chain, is_conn_error}
use mt_shards_back_test.Migrator.Lease.{Fields}
use mt_shards_back_test.Migrator.Env.{Env, Act, RunOptions}
use mt_shards_back_test.Migrator.Env.Steps.{
  provisionable, targeted, cas, forget, pending_plan, code_older_than_db,
}
use mt_shards_back_test.Migrator.Run.Result.{
  ResultKind, Reason, Side, Result, r, lost_conn, try_then, cas_lost, failure, rethrow,
}

abbrev pub to_pending : Fields
to_pending = record {
  status = Status.pending;
  previous_status = Status.new;
  last_error = LastError.blank;
}

abbrev pub to_active : Fields
to_active = record {
  status = Status.active;
  previous_status = Status.pending;
  last_error = LastError.blank;
}

abbrev pub to_failed : Status → LastError → Fields
to_failed previous why = record {
  status = Status.failed;
  previous_status = previous;
  last_error = why;
}

module _ (e : Env) (pk : ℕ) (t : TenantRow) where
  unfoldable pub record_failure : Result → Bool → Act Result
  record_failure res true = do forget e pk; pure res
  record_failure res false = do
    lost ← cas_lost e pk
    pure (record lost { invalid_indexes = res.invalid_indexes })

  unfoldable pub second_failure : Result → Kind → Chain → Act Result
  second_failure res k c =
      if is_conn_error c
      then pure (record res { reason = Reason.conn_error; conn_error = some Side.default })
      else rethrow k c

  -- The inner `try` of the `except` clause, for a claimed tenant.
  unfoldable pub mark_failed : Result → Act Result
  unfolding record_failure second_failure
  mark_failed res =
      try_then
        (do
          written ←
              cas e pk (Status.pending ∷ []) (to_failed Status.pending LastError.traceback_text)
          record_failure res written)
        (second_failure res) pure

  -- The `except Exception` clause.
  unfoldable pub provision_failed : Side → Bool → Kind → Chain → Act Result
  unfolding mark_failed
  provision_failed side claimed k c =
      if is_conn_error c
      then pure (lost_conn side)
      else do res ← failure e t k c; if claimed then mark_failed res else pure res

  unfoldable pub activated : Bool → Act Result
  activated false = cas_lost e pk
  activated true = do
    forget e pk
    pure (
        r ResultKind.ok
          (if status_eq t.status Status.pending then Reason.resumed else Reason.applied))

  unfoldable pub go_active : Bool → Act Result
  unfolding activated
  go_active true = pure (r ResultKind.skipped Reason.code_older_than_db)
  go_active false = do written ← cas e pk (Status.pending ∷ []) to_active; activated written

  -- After the migrations: side = "default", claimed.
  unfoldable pub activate : Act Result
  unfolding go_active
  activate =
      try_then (do older ← code_older_than_db e; go_active older)
        (provision_failed Side.default true) pure

  unfoldable pub check_plan : Option (List (Text × Text)) → Act (Unit {0})
  check_plan none = throw (exc Kind.disappeared [])
  check_plan (some []) = pure tt
  check_plan (some (m ∷ ms)) = throw (exc (Kind.incomplete (length (m ∷ ms))) [])

  -- The statement with the quoted name; a name that cannot be quoted raises ValueError.
  unfoldable pub quoted_schema : Act (Unit {0})
  quoted_schema = elim (quote_schema t.schema_name) [
    | ok quoted ↦ e.create_schema t.alias quoted
    | raise _ ↦ throw (exc Kind.other [])
  ]

  unfoldable pub create_schema : Act (Unit {0})
  unfolding quoted_schema
  create_schema = e.shard_cursor t.alias >>= λ _. quoted_schema

  -- side = "shard", claimed.
  unfoldable pub migrate_claimed : RunOptions → Act Result
  unfolding create_schema check_plan activate
  migrate_claimed opts =
      try_then
        (do
          create_schema
          e.open_shard t.alias pk
          e.run_migrations t.alias t.schema_name opts
          plan ← pending_plan e t
          check_plan plan)
        (provision_failed Side.shard true) (λ _. activate)

  unfoldable pub after_claim : RunOptions → Bool → Act Result
  unfolding migrate_claimed
  after_claim opts true = migrate_claimed opts
  after_claim opts false = try_then (cas_lost e pk) (provision_failed Side.default false) pure

  -- NEW or PENDING to PENDING.
  unfoldable pub claim_tenant : RunOptions → Act Result
  unfolding after_claim
  claim_tenant opts =
      try_then (cas e pk provisionable to_pending) (provision_failed Side.default false)
        (after_claim opts)

  unfoldable pub refused_schema : Bool → Act Result
  refused_schema false = cas_lost e pk
  refused_schema true = do forget e pk; pure (r ResultKind.failed Reason.schema_exists)

  unfoldable pub refuse_schema : Act Result
  unfolding refused_schema
  refuse_schema =
      try_then
        (do
          written ← cas e pk (Status.new ∷ []) (to_failed Status.new LastError.schema_exists_text)
          refused_schema written)
        (provision_failed Side.default false) pure

  -- M4: a NEW tenant that did not come from FAILED must not find relations in its schema.
  unfoldable pub foreign_schema : Act Bool
  foreign_schema =
      if status_eq t.status Status.new && not (status_eq t.previous_status Status.failed)
      then e.has_relations t.alias t.schema_name
      else pure false

  unfoldable pub provision_current : RunOptions → Act Result
  unfolding foreign_schema refuse_schema claim_tenant
  provision_current opts =
      try_then foreign_schema (provision_failed Side.shard false)
        (λ foreign. if foreign then refuse_schema else claim_tenant opts)

  unfoldable pub provision : RunOptions → Act Result
  unfolding provision_current provision_failed
  provision opts =
      if targeted opts
      then pure (r ResultKind.skipped Reason.targeted)
      else try_then (code_older_than_db e) (provision_failed Side.default false) (λ older.
        if older
        then pure (r ResultKind.skipped Reason.code_older_than_db)
        else provision_current opts)
