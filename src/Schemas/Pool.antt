-- ===== src/Schemas/Pool.antt =====
-- migrate_schemas.py: `_run_parallel` and `_collect`. The pool, its processes and the signals are
-- not under the repository: they are the `World`, in which futures end in any order and with
-- any result. Nothing is written to the screen or to a log file.
pub mod Invariant
pub mod Reach
pub mod Ends
pub mod Turns
pub mod Polls
pub mod Codes
pub mod Trace
pub mod Answers
pub mod Stops
pub mod Streaks
use mt_shards_back_test.Base.{
  ℕ, zero, suc, Bool, true, false, ◌||◌, Option, none, some, List, [], ◌∷◌, map, ◌==◌,
  if◌then◌else◌, length,
}
use mt_shards_back_test.Migrator.Run.Result.{Result, Reason}
use mt_shards_back_test.Schemas.Entries.{
  Entry, EntryKind, EntryReason, Stop, take, put, entry_at, write, write_all,
}
use mt_shards_back_test.Schemas.Queue.{queued}
use mt_shards_back_test.Schemas.Stage.{Stage, next, halt, done}

-- A future that is done: its Result, an exception of the work, or BrokenProcessPool.
pub data Completion : Type 0 where
  returned : Result → Completion
  raised pool_broken : Completion

-- What the loop meets in its k-th turn: whether a signal has been seen before it, what the wait on
-- the dict finds done, nothing where it times out, and, if the pool broke, the futures with a result among the rest, and
-- whether the second signal has been seen by then.
pub record World : Type 0 where
  pub drain : ℕ → Bool
  pub wait : ℕ → List ℕ → List (ℕ × Completion)
  pub salvaged : ℕ → List ℕ → List (ℕ × Result)
  pub hard : ℕ → Bool

-- `running` lists the addresses of the entries whose future is in the dict.
pub record Pool : Type 0 where
  pub stage : Stage
  pub entries : List Entry
  pub running : List ℕ

unfoldable pub is_in : ℕ → List ℕ → Bool
is_in i [] = false
is_in i (j ∷ js) = i == j || is_in i js

unfoldable pub removed : ℕ → List ℕ → List ℕ
removed i [] = []
removed i (j ∷ js) = let rest = removed i js in if i == j then js else j ∷ rest

abbrev pub with_stage : List ℕ → Stage × List Entry → Pool
with_stage running (st, es) = record { stage = st; entries = es; running = running }

unfoldable pub stopped : Stop → Bool → Pool → Pool
unfolding halt
stopped stop override p = with_stage p.running (halt stop override p.stage p.entries)

abbrev pub started : Option (ℕ × Stage) → Pool → Option Pool
started none p = none
started (some (i, st)) p = some (record {
  stage = st;
  entries = write i (λ e. record e { kind = EntryKind.running }) p.entries;
  running = i ∷ p.running;
})

-- One turn of the inner loop: the next target is handed to the pool.
unfoldable pub submit : ℕ → ℕ → Pool → Option Pool
unfolding next write
submit jobs per_shard p = started (next jobs per_shard p.stage) p

-- The inner loop, which the fuel bounds.
unfoldable pub fill : ℕ → ℕ → ℕ → Pool → Pool
unfolding submit
fill jobs per_shard zero p = p
fill jobs per_shard (suc fuel) p = elim (submit jobs per_shard p) [
  | none ↦ p
  | some q ↦ fill jobs per_shard fuel q
]

-- _collect
unfoldable pub collect : Completion → Entry → Entry
unfolding take
collect (returned res) e = take res e
collect raised e = put EntryKind.failed (EntryReason.of_result Reason.migration_error) e
collect pool_broken e = e

abbrev pub done_at : Option Entry → List ℕ → Stage → List Entry → Pool
done_at none running st es = record { stage = st; entries = es; running = running }
done_at (some e) running st es = with_stage running (done e st es)

-- The future leaves the dict, its entry takes the result, and the stage is told.
unfoldable pub finish : ℕ → Completion → Pool → Pool
unfolding write collect entry_at removed done
finish i c p =
    let es = write i (collect c) p.entries in
    done_at (entry_at i es) (removed i p.running) p.stage es

abbrev pub is_broken : Completion → Bool
is_broken pool_broken = true
is_broken _ = false

-- A future that is not in the dict is not one that the wait returns.
unfoldable pub received : ℕ × Completion → Pool → Pool
unfolding finish is_in
received (i, c) p = if is_broken c then p else if is_in i p.running then finish i c p else p

unfoldable pub receive : List (ℕ × Completion) → Pool → Pool
unfolding received
receive [] p = p
receive (x ∷ xs) p = receive xs (received x p)

unfoldable pub any_broken : List (ℕ × Completion) → Bool
any_broken [] = false
any_broken (x ∷ xs) = is_broken x.1 || any_broken xs

pub data Turn : Type 0 where
  ended broke again : Pool → Turn

module _ (world : World) where
  -- What follows a broken pool: results that made it back count, the rest was cut off.
  unfoldable pub cut_off : ℕ → Pool → Pool
  unfolding receive stopped write_all
  cut_off k p =
      let q = receive (map (λ x. (x.0, returned x.1)) (world.salvaged k p.running)) p in
      let h = stopped (if world.hard k then Stop.hard_stop else Stop.broken_pool) true q in
      record h {
        entries = write_all h.running (put EntryKind.interrupted EntryReason.hard_stop) h.entries;
      }

  -- The body of the outer loop up to its wait.
  unfoldable pub prepared : ℕ → ℕ → ℕ → Pool → Pool
  unfolding fill stopped queued
  prepared jobs per_shard k p =
      let q = if world.drain k then stopped Stop.signal false p else p in
      fill jobs per_shard (suc (length (queued q.stage.queues))) q

  abbrev pub waited : ℕ → Pool → Turn
  waited k q =
      let found = world.wait k q.running in
      let r = receive found q in if any_broken found then broke (cut_off k r) else again r

  abbrev pub unless_idle : List ℕ → ℕ → Pool → Turn
  unless_idle [] k q = ended q
  unless_idle (i ∷ is) k q = waited k q

  unfoldable pub turn : ℕ → ℕ → ℕ → Pool → Turn
  unfolding prepared
  turn jobs per_shard k p = let q = prepared jobs per_shard k p in unless_idle q.running k q

  -- The loop from its k-th turn on: none where the fuel runs out before it ends.
  unfoldable pub run_parallel : ℕ → ℕ → ℕ → ℕ → Pool → Option Pool
  unfolding turn
  run_parallel jobs per_shard zero k p = none
  run_parallel jobs per_shard (suc fuel) k p = elim (turn jobs per_shard k p) [
    | ended q ↦ some q
    | broke q ↦ some q
    | again q ↦ run_parallel jobs per_shard fuel (suc k) q
  ]
