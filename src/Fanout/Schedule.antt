-- ===== src/Fanout/Schedule.antt =====
-- commons/platform/beat.py: scoped_schedule, which wraps an entry of the beat schedule for the
-- fanout, with _classify_schedule and _crontab_to_cronspec. N is the type of numbers and of the other
-- intervals' contents, V that of the arguments' values; `float` and the default period are given.
pub mod Laws
use mt_shards_back_test.Base.{
  ℕ, Bool, true, false, not, ◌||◌, Option, none, some, List, [], ◌∷◌, ◌++◌, Text, text_eq, codes,
  if◌then◌else◌,
}
use mt_shards_back_test.Base.Exec.{Outcome, ok, raise}

-- The original fields of a celery crontab, as `format` writes them.
pub record Crontab : Type 0 where
  pub minute : Text
  pub hour : Text
  pub day_of_week : Text
  pub day_of_month : Text
  pub month_of_year : Text

pub data Schedule (N : Type 0) : Type 0 where
  number : N → Schedule N
  timedelta : N → Schedule N
  interval : N → Schedule N
  crontab : Crontab → Schedule N
  unsupported : Schedule N

abbrev pub space : ℕ
space = 32

unfoldable pub crontab_to_cronspec : Crontab → Text
crontab_to_cronspec c =
    c.minute
    ++ (space
        ∷ (c.hour
            ++ (space
                ∷ (c.day_of_month ++ (space ∷ (c.month_of_year ++ (space ∷ c.day_of_week)))))))

-- ImproperlyConfigured for a scope or a schedule, and KeyError.
pub data BeatError : Type 0 where
  bad_scope bad_schedule key_error : BeatError

-- The second part is the cron spec: `none` is the kind "interval".
unfoldable pub classify_schedule :
    {N : Type 0} → Schedule N → Outcome BeatError (Schedule N × Option Text)
unfolding crontab_to_cronspec
classify_schedule (number n) = ok (number n, none)
classify_schedule (timedelta n) = ok (timedelta n, none)
classify_schedule (interval n) = ok (interval n, none)
classify_schedule (crontab c) = ok (crontab c, some (crontab_to_cronspec c))
classify_schedule unsupported = raise bad_schedule

-- A beat entry: the keys that the wrapper reads, and all others.
pub record BeatEntry (N V : Type 0) : Type 0 where
  pub task : Option Text
  pub schedule : Option (Schedule N)
  pub args : Option (List V)
  pub kwargs : Option (List (Text × V))
  pub options : Option (List (Text × V))
  pub others : List (Text × V)

-- The arguments of fanout_dispatch.
pub record Disp (V : Type 0) : Type 0 where
  pub task_name : Text
  pub scope : Text
  pub task_args : List V
  pub task_kwargs : List (Text × V)
  pub task_options : List (Text × V)
  pub cron : Option Text
  pub grace : Option ℕ

-- A SchedEntry with its scope: a copy of the entry, or an entry for FANOUT_TASK_NAME.
pub data SchedEntry (N V : Type 0) : Type 0 where
  plain : BeatEntry N V → Text → SchedEntry N V
  fanned : Schedule N → Disp V → SchedEntry N V

abbrev pub or_empty : {A : Type 0} → Option (List A) → List A
or_empty none = []
or_empty (some xs) = xs

abbrev pub or_default : {A : Type 0} → A → Option A → A
or_default a none = a
or_default a (some b) = b

unfoldable pub disp_of : {N V : Type 0} → BeatEntry N V → Text → Text → Disp V
disp_of e task scope = record {
  task_name = task;
  scope = scope;
  task_args = or_empty e.args;
  task_kwargs = or_empty e.kwargs;
  task_options = or_empty e.options;
  cron = none;
  grace = none;
}

abbrev pub classified :
    {N : Type 0} → Option (Schedule N) → Outcome BeatError (Schedule N × Option Text)
classified none = raise key_error
classified (some s) = classify_schedule s

-- scope in ("public", "tenants")
abbrev pub is_scope : Text → Bool
is_scope scope = text_eq scope (codes "public") || text_eq scope (codes "tenants")

module _ {N V : Type 0} (float : N → N) (default_period : N) where
  -- From `disp` on, for what _classify_schedule gave.
  unfoldable pub fan :
      BeatEntry N V → Text → Option N → Option ℕ → Text → Schedule N × Option Text → SchedEntry N V
  unfolding disp_of
  fan e scope period grace task (sched, none) = fanned sched (disp_of e task scope)
  fan e scope period grace task (sched, some cron) =
      fanned (number (float (or_default default_period period)))
        (record (disp_of e task scope) { cron = some cron; grace = grace })

  abbrev pub named :
      BeatEntry N V
      → Text
      → Option N
      → Option ℕ
      → Option Text
      → Outcome BeatError (Schedule N × Option Text)
      → Outcome BeatError (SchedEntry N V)
  named e scope period grace task (raise x) = raise x
  named e scope period grace none (ok c) = raise key_error
  named e scope period grace (some task) (ok c) = ok (fan e scope period grace task c)

  unfoldable pub scoped_schedule :
      Bool → BeatEntry N V → Text → Option N → Option ℕ → Outcome BeatError (SchedEntry N V)
  unfolding classify_schedule fan text_eq
  scoped_schedule multitenant e scope period grace =
      if not (is_scope scope)
      then raise bad_scope
      else if not multitenant || text_eq scope (codes "public")
      then ok (plain e scope)
      else named e scope period grace e.task (classified e.schedule)
