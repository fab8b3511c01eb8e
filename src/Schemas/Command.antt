-- ===== src/Schemas/Command.antt =====
-- migrate_schemas.py: the rest of the command. The targets that `_select_targets` takes, the second
-- look at the entries that were skipped as locked, the entries of a run that was cut off, and the
-- exit code of `handle`. The rows come in the order of the query; screen and files are left out.
pub mod Laws
use mt_shards_back_test.Base.{
  ℕ, zero, suc, Bool, true, false, not, ◌&&◌, ◌||◌, Option, none, some, List, [], ◌∷◌, ◌++◌, Text,
  text_eq, codes, if◌then◌else◌, length,
}
use mt_shards_back_test.Base.Exec.{pure, throw, gets, catch, ◌>>=◌, ◌>>◌}
use mt_shards_back_test.Migrator.Db.{Db, TenantRow, Status, status_eq, status_in}
use mt_shards_back_test.Migrator.Lease.{LeaseHolder}
use mt_shards_back_test.Migrator.Env.{Env, Act}
use mt_shards_back_test.Migrator.Env.Steps.{
  provisionable, upgradable_statuses, except_exception, load, pending_plan, lease_holder_now,
  truthy_text,
}
use mt_shards_back_test.Migrator.Errors.{Kind, Chain}
use mt_shards_back_test.Migrator.Run.Result.{Result, Reason, try_then}
use mt_shards_back_test.Schemas.Entries.{
  StageName, Target, Entry, EntryKind, EntryReason, Stop, entry, take, put, is_running, is_not_run,
  exit_code,
}

-- A tenant with the fields of its shard that the query reads.
pub record Listed : Type 0 where
  pub pk : ℕ
  pub schema : Text
  pub alias : Text
  pub is_default : Bool
  pub is_active : Bool
  pub status : Status

unfoldable pub target_of : Listed → Target
target_of t = record {
  stage = StageName.tenant;
  schema = t.schema;
  shard = t.alias;
  tenant_id = some t.pk;
  status_before = some t.status;
}

abbrev on_database : Option Text → Text → Bool
on_database none alias = true
on_database (some []) alias = true
on_database (some (c ∷ x)) alias = text_eq alias (c ∷ x)

unfoldable pub selected : Option Text → Listed → Bool
unfolding status_in text_eq
selected database t =
    (status_in t.status provisionable || status_in t.status upgradable_statuses)
    && (not t.is_default
        && (t.is_active
            && (not (text_eq t.schema (codes "public")) && on_database database t.alias)))

unfoldable pub targets_among : Option Text → List Listed → List Target
unfolding selected target_of
targets_among database [] = []
targets_among database (t ∷ ts) =
    let rest = targets_among database ts in if selected database t then target_of t ∷ rest else rest

-- _select_targets, with the tenant of -s if it is given.
unfoldable pub select_targets : Option Listed → Option Text → List Listed → List Target
unfolding targets_among target_of
select_targets (some t) database rows = target_of t ∷ []
select_targets none database rows = targets_among database rows

abbrev pub is_locked_reason : EntryReason → Bool
is_locked_reason (EntryReason.of_result Reason.locked) = true
is_locked_reason _ = false

abbrev pub is_skipped : EntryKind → Bool
is_skipped EntryKind.skipped = true
is_skipped _ = false

abbrev pub is_locked_skip : Entry → Bool
is_locked_skip e = is_skipped e.kind && is_locked_reason e.reason

-- _recheck
unfoldable pub rechecked_as : EntryReason → Entry → Entry
rechecked_as why e = record e { kind = EntryKind.ok; reason = why; rechecked = true }

abbrev pub by_plan : Option (List (Text × Text)) → Entry → Entry
by_plan none e = e
by_plan (some []) e = rechecked_as EntryReason.done_by_another_run e
by_plan (some (m ∷ ms)) e = e

abbrev pub by_holder : Option LeaseHolder → Entry → Entry
by_holder none e = e
by_holder (some h) e = if h.expired then e else rechecked_as EntryReason.provisioning_elsewhere e

module _ (env : Env) where
  abbrev pub look_again : ℕ → Entry → TenantRow → Act Entry
  look_again pk e t =
      if status_in t.status upgradable_statuses
      then pending_plan env t >>= (λ plan. pure (by_plan plan e))
      else if status_eq t.status Status.pending
      then lease_holder_now env pk >>= (λ h. pure (by_holder h e))
      else pure e

  -- `.get(pk=None)` finds no tenant, and the skip stands.
  abbrev pub recheck_at : Option ℕ → Entry → Act Entry
  recheck_at none e = pure e
  recheck_at (some pk) e =
      catch (load env pk >>= look_again pk e) (except_exception (λ k c. pure e))

  -- One turn of _recheck_locked: what raises leaves the skip.
  unfoldable pub recheck : Entry → Act Entry
  recheck e = if is_locked_skip e then recheck_at e.target.tenant_id e else pure e

  unfoldable pub recheck_locked : List Entry → Act (List Entry)
  unfolding recheck
  recheck_locked [] = pure []
  recheck_locked (e ∷ es) = recheck e >>= λ e'. recheck_locked es >>= λ es'. pure (e' ∷ es')

-- What tenants/migrator.py, `snapshot` reads of a target that was cut off; `none` in `status` is
-- "deleted", and `error` says that reading raised.
pub data Seen : Type 0 where
  unread deleted : Seen
  status : Status → Seen

pub record Snapshot : Type 0 where
  pub seen : Seen
  pub behind : Option ℕ
  pub lease_owner : Option Text
  pub error : Bool

abbrev pub blank_snapshot : Snapshot
blank_snapshot = record { seen = unread; behind = none; lease_owner = none; error = false }

abbrev pub owner_of : Option LeaseHolder → Option Text
owner_of none = none
owner_of (some h) = some h.row.owner

abbrev pub behind_of : Option (List (Text × Text)) → Option ℕ
behind_of none = none
behind_of (some ms) = some (length ms)

abbrev pub after_error : Kind → Snapshot → Snapshot
after_error Kind.tenant_missing snap = record snap { seen = deleted }
after_error k snap = record snap { error = true }

unfoldable pub load_seen : Snapshot → Kind → Chain → Act Snapshot
unfolding pure
load_seen snap k c = pure (after_error k snap)

module _ (env : Env) where
  unfoldable pub plan_seen : Snapshot → TenantRow → Act Snapshot
  unfolding load_seen try_then
  plan_seen snap t =
      let known = record snap { seen = status t.status } in
      try_then (pending_plan env t) (load_seen known)
        (λ plan. pure (record known { behind = behind_of plan }))

  -- For public, key 0, only the lease is read.
  unfoldable pub tenant_seen : ℕ → Snapshot → Act Snapshot
  unfolding plan_seen
  tenant_seen zero snap = pure snap
  tenant_seen (suc n) snap = try_then (load env (suc n)) (load_seen snap) (plan_seen snap)

  -- snapshot, the three reads of one `try` with one set of handlers
  unfoldable pub snapshot : ℕ → Act Snapshot
  unfolding tenant_seen
  snapshot key =
      try_then (lease_holder_now env key) (load_seen blank_snapshot)
        (λ h. tenant_seen key (record blank_snapshot { lease_owner = owner_of h }))

abbrev pub is_blank : EntryReason → Bool
is_blank EntryReason.blank = true
is_blank _ = false

unfoldable pub settle_entry : EntryKind → EntryReason → Entry → Entry
settle_entry k why e =
    if is_running e.kind
    then put k why e
    else if is_not_run e.kind && is_blank e.reason
    then record e { reason = EntryReason.stopped }
    else e

-- _settle
unfoldable pub settle : EntryKind → EntryReason → List Entry → List Entry
unfolding settle_entry
settle k why [] = []
settle k why (e ∷ es) = settle_entry k why e ∷ settle k why es

-- How `_run` came to an end: it returned, or let a KeyboardInterrupt or an Exception through.
pub data RunEnd : Type 0 where
  returned interrupted raised : RunEnd

pub record Report : Type 0 where
  pub code : ℕ
  pub entries : List Entry
  pub stop : Option Stop

-- `handle` from the end of the run on: `hard` is whether the second signal was seen.
unfoldable pub report : RunEnd → Bool → List Entry → Option Stop → Report
unfolding exit_code settle
report returned hard es stop = record { code = exit_code es stop; entries = es; stop = stop }
report interrupted hard es stop = record {
  code = if hard then 1 else 130;
  entries = settle EntryKind.interrupted EntryReason.hard_stop es;
  stop = some Stop.hard_stop;
}
report raised hard es stop = record {
  code = 1;
  entries = settle EntryKind.failed (EntryReason.of_result Reason.migration_error) es;
  stop = stop;
}
