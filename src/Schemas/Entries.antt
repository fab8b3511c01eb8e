-- ===== src/Schemas/Entries.antt =====
-- migrate_schemas.py: Target, Entry and Stop, and the entries of a run as objects that the queues
-- and the run share: an address is a position in `self.entries`. An entry stands without its
-- message for humans, its duration, the name of its log file and its snapshot.
use mt_shards_back_test.Base.{
  ℕ, zero, suc, Bool, true, false, ◌&&◌, Option, none, some, List, [], ◌∷◌, Text, if◌then◌else◌,
  all, is_none,
}
use mt_shards_back_test.Migrator.Db.{Status}
use mt_shards_back_test.Migrator.Run.Result.{Result, Reason, ResultKind, Side}

pub data StageName : Type 0 where
  shared tenant : StageName

pub record Target : Type 0 where
  pub stage : StageName
  pub schema : Text
  pub shard : Text
  pub tenant_id : Option ℕ
  pub status_before : Option Status

pub data EntryKind : Type 0 where
  ok noop failed skipped not_run interrupted running : EntryKind

-- "" before anything is known, a reason of a Result, or one that only the command gives.
pub data EntryReason : Type 0 where
  blank stopped shard_unreachable hard_stop done_by_another_run provisioning_elsewhere : EntryReason
  of_result : Reason → EntryReason

pub record Entry : Type 0 where
  pub target : Target
  pub kind : EntryKind
  pub reason : EntryReason
  pub invalid_indexes : List Text
  pub conn_error : Option Side
  pub rechecked : Bool

-- Entry(target)
unfoldable pub entry : Target → Entry
entry t = record {
  target = t;
  kind = EntryKind.not_run;
  reason = EntryReason.blank;
  invalid_indexes = [];
  conn_error = none;
  rechecked = false;
}

unfoldable pub kind_of : ResultKind → EntryKind
kind_of ResultKind.ok = EntryKind.ok
kind_of ResultKind.noop = EntryKind.noop
kind_of ResultKind.failed = EntryKind.failed
kind_of ResultKind.skipped = EntryKind.skipped

-- Entry.take
unfoldable pub take : Result → Entry → Entry
unfolding kind_of
take res e = record e {
  kind = kind_of res.kind;
  reason = EntryReason.of_result res.reason;
  invalid_indexes = res.invalid_indexes;
  conn_error = res.conn_error;
}

abbrev pub put : EntryKind → EntryReason → Entry → Entry
put k why e = record e { kind = k; reason = why }

-- Stop, with the shard that `max_failures` names.
pub data Stop : Type 0 where
  fail_fast default_unreachable shared_failed signal hard_stop broken_pool : Stop
  max_failures : Text → Stop

abbrev pub succeeded : EntryKind → Bool
succeeded EntryKind.ok = true
succeeded EntryKind.noop = true
succeeded _ = false

abbrev pub is_failed : EntryKind → Bool
is_failed EntryKind.failed = true
is_failed _ = false

abbrev pub is_running : EntryKind → Bool
is_running EntryKind.running = true
is_running _ = false

abbrev pub is_not_run : EntryKind → Bool
is_not_run EntryKind.not_run = true
is_not_run _ = false

unfoldable pub exit_code : List Entry → Option Stop → ℕ
unfolding all
exit_code entries stop = if is_none stop && all (λ e. succeeded e.kind) entries then 0 else 1

-- The object at an address, and a write to it.
unfoldable pub entry_at : ℕ → List Entry → Option Entry
entry_at i [] = none
entry_at zero (e ∷ es) = some e
entry_at (suc i) (e ∷ es) = entry_at i es

unfoldable pub write : ℕ → (Entry → Entry) → List Entry → List Entry
write i f [] = []
write zero f (e ∷ es) = f e ∷ es
write (suc i) f (e ∷ es) = e ∷ write i f es

-- `for rest in q: …`
unfoldable pub write_all : List ℕ → (Entry → Entry) → List Entry → List Entry
unfolding write
write_all [] f es = es
write_all (i ∷ is) f es = write_all is f (write i f es)
