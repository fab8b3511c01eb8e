-- ===== src/Schemas/Stage.antt =====
-- migrate_schemas.py: TenantStage. Its methods write to the entries that its queues hold, so they
-- are given the entries of the run and return them.
pub mod Cuts
pub mod Stops
use mt_shards_back_test.Base.{
  ℕ, suc, ◌+◌, ◌-◌, Bool, true, false, not, ◌&&◌, ◌||◌, Option, none, some, List, [], ◌∷◌, ◌++◌,
  map, Text, leb, if◌then◌else◌, any, is_some,
}
use mt_shards_back_test.Migrator.Run.Result.{Side}
use mt_shards_back_test.Schemas.Entries.{
  Entry, EntryKind, EntryReason, Stop, put, write_all, succeeded, is_failed,
}
use mt_shards_back_test.Schemas.Queue.{
  Counter, tally, set_tally, Queues, queue, set_queue, append_to, pick_next, nonempty, queued,
}

pub record Stage : Type 0 where
  pub keep_going : Bool
  pub max_failures : ℕ
  pub queues : Queues
  pub inflight : Counter
  pub consecutive : Counter
  pub stop : Option Stop
  pub last : Option Text

-- The entries with the addresses from `i` on, in the order of their queues.
unfoldable pub queued_from : ℕ → List Entry → Queues → Queues
unfolding append_to
queued_from i [] qs = qs
queued_from i (e ∷ es) qs = queued_from (suc i) es (append_to e.target.shard i qs)

-- TenantStage.of, of the entries that follow the first `i` of the run.
unfoldable pub stage_of : ℕ → List Entry → Bool → ℕ → Stage
unfolding queued_from
stage_of i es keep_going max_failures = record {
  keep_going = keep_going;
  max_failures = max_failures;
  queues = queued_from i es [];
  inflight = [];
  consecutive = [];
  stop = none;
  last = none;
}

unfoldable pub remaining : Stage → Bool
unfolding any
remaining st = any (λ q. nonempty q.1) st.queues

abbrev pub popped : Text → List ℕ → Stage → Option (ℕ × Stage)
popped shard [] st = none
popped shard (i ∷ rest) st = some (
  i,
  record st {
    last = some shard;
    inflight = set_tally shard (suc (tally shard st.inflight)) st.inflight;
    queues = set_queue shard rest st.queues;
  },
)

abbrev pub taken_from : Option Text → Stage → Option (ℕ × Stage)
taken_from none st = none
taken_from (some shard) st = popped shard (queue shard st.queues) st

-- TenantStage.next
unfoldable pub next : ℕ → ℕ → Stage → Option (ℕ × Stage)
unfolding pick_next queue set_queue tally set_tally
next jobs per_shard st =
    if is_some st.stop
    then none
    else taken_from (pick_next st.queues st.inflight jobs per_shard st.last) st

abbrev pub kept_stop : Bool → Stop → Option Stop → Option Stop
kept_stop override stop none = some stop
kept_stop override stop (some s) = some (if override then stop else s)

-- TenantStage.halt
unfoldable pub halt : Stop → Bool → Stage → List Entry → Stage × List Entry
unfolding queued write_all
halt stop override st es = (
  record st { stop = kept_stop override stop st.stop; queues = map (λ q. (q.0, [])) st.queues },
  write_all (queued st.queues) (put EntryKind.not_run EntryReason.stopped) es,
)

-- `done` where the shard of the entry is unreachable: the rest of its queue is not run.
abbrev pub unreachable : Text → Stage → List Entry → Stage × List Entry
unreachable shard st es = (
  record st { queues = set_queue shard [] st.queues },
  write_all (queue shard st.queues) (put EntryKind.not_run EntryReason.shard_unreachable) es,
)

abbrev pub counted : Text → EntryKind → Stage → Stage
counted shard k st =
    if is_failed k
    then record st {
      consecutive = set_tally shard (suc (tally shard st.consecutive)) st.consecutive;
    }
    else if succeeded k
    then record st { consecutive = set_tally shard 0 st.consecutive }
    else st

-- The end of `done`: a failure stops the run, or one too many in a row.
unfoldable pub stop_on_failure : Text → EntryKind → Stage → List Entry → Stage × List Entry
unfolding halt remaining tally
stop_on_failure shard k st es =
    if not (is_failed k) || is_some st.stop
    then (st, es)
    else if not st.keep_going
    then (if remaining st then halt Stop.fail_fast false st es else (st, es))
    else if leb st.max_failures (tally shard st.consecutive)
    then halt (Stop.max_failures shard) false st es
    else (st, es)

abbrev pub settled : Option Side → Text → EntryKind → Stage → List Entry → Stage × List Entry
settled (some Side.default) shard k st es = halt Stop.default_unreachable false st es
settled (some Side.shard) shard k st es =
    let (st', es') = unreachable shard st es in stop_on_failure shard k st' es'
settled none shard k st es = stop_on_failure shard k (counted shard k st) es

-- TenantStage.done
unfoldable pub done : Entry → Stage → List Entry → Stage × List Entry
unfolding halt stop_on_failure tally set_tally
done e st es =
    let shard = e.target.shard in
    settled e.conn_error shard e.kind
      (record st { inflight = set_tally shard (tally shard st.inflight - 1) st.inflight }) es
