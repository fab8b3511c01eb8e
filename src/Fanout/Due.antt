-- ===== src/Fanout/Due.antt =====
-- tenants/celery/dispatch.py, _due_by_tenant_tz: which tenants a calendar entry is due for. ZoneInfo
-- and croniter are parameters; what active_tenants_with_tz reads is an argument. Microseconds.
pub mod Laws
use mt_shards_back_test.Base.{
  ℕ, ◌+◌, ◌*◌, Bool, true, false, ◌&&◌, Option, none, some, Text, leb, is_some, if◌then◌else◌, List,
  [], ◌∷◌,
}
use mt_shards_back_test.Fanout.Watermark.{Entry, TaskRun, load_map, get}

-- `zone` is ZoneInfo, none where it raises; `get_prev cron tz now` is the last occurrence.
pub record Calendar : Type 1 where
  pub Zone : Type 0
  pub zone : Text → Option Zone
  pub get_prev : Text → Zone → ℕ → ℕ

-- What becomes of one tenant at one tick.
pub data Verdict : Type 0 where
  skipped due dropped : Verdict

-- t_fire <= last_run
abbrev pub dispatched : ℕ → Option ℕ → Bool
dispatched t_fire none = false
dispatched t_fire (some last_run) = leb t_fire last_run

-- `elapsed <= k * grace`, with elapsed = now - t_fire
abbrev pub within : ℕ → ℕ → ℕ → Bool
within now t_fire grace = leb now (t_fire + grace)

unfoldable pub judge : ℕ → ℕ → ℕ → Option ℕ → Verdict
judge now grace t_fire last_run =
    if dispatched t_fire last_run
    then skipped
    else (if within now t_fire grace
        then due
        else (if is_some last_run && within now t_fire (2 * grace) then dropped else skipped))

module _ (κ : Calendar) where
  abbrev pub judge_in : Text → ℕ → ℕ → Option ℕ → Option κ.Zone → Verdict
  judge_in cron now grace last_run none = skipped
  judge_in cron now grace last_run (some tz) = judge now grace (κ.get_prev cron tz now) last_run

  abbrev pub sort_in : Text → Verdict → List Text × List Text → List Text × List Text
  sort_in schema skipped lists = lists
  sort_in schema due (ds, xs) = (schema ∷ ds, xs)
  sort_in schema dropped (ds, xs) = (ds, schema ∷ xs)

  -- The loop: the schemas that are due, and those whose occurrence is dropped.
  unfoldable pub due_loop :
      Text → ℕ → ℕ → List (Text × ℕ) → List (Text × Text) → List Text × List Text
  unfolding judge get
  due_loop cron now grace last [] = ([], [])
  due_loop cron now grace last ((schema, tzname) ∷ tenants) =
      sort_in schema (judge_in cron now grace (get last schema) (κ.zone tzname))
        (due_loop cron now grace last tenants)

  unfoldable pub due_by_tenant_tz :
      Entry → Text → ℕ → ℕ → List (Text × Text) → List TaskRun → List Text
  unfolding due_loop load_map
  due_by_tenant_tz e cron now grace tenants rows =
      (due_loop cron now grace (load_map e rows) tenants).0
