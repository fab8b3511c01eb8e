-- ===== src/Tests/Schedule.antt =====
-- A daily task of the tenants in the beat schedule.
use mt_shards_back_test.Base.{ℕ, ◌≡◌, refl, true, all, none, some, [], Text, codes, text_eq}
use mt_shards_back_test.Fanout.Schedule.{
  Crontab, crontab, crontab_to_cronspec, BeatEntry, SchedEntry, fanned, number, scoped_schedule,
}
use mt_shards_back_test.Fanout.Schedule.Laws.{told, asked, told-scoped_schedule}

-- crontab(minute=30, hour="2,14", day_of_week="mon-fri")
abbrev daily : Crontab
daily = record {
  minute = codes "30";
  hour = codes "2,14";
  day_of_week = codes "mon-fri";
  day_of_month = codes "*";
  month_of_year = codes "*";
}

abbrev report : BeatEntry ℕ Text
report = record {
  task = some (codes "reports.daily");
  schedule = some (crontab daily);
  args = none;
  kwargs = none;
  options = none;
  others = [];
}

abbrev wrapped : SchedEntry ℕ Text
wrapped = fanned (number 60) (record {
  task_name = codes "reports.daily";
  scope = codes "tenants";
  task_args = [];
  task_kwargs = [];
  task_options = [];
  cron = some (codes "30 2,14 * * mon-fri");
  grace = some 900;
})

scoped_schedule_example : told wrapped ≡ asked report
unfolding text_eq crontab_to_cronspec all scoped_schedule
scoped_schedule_example =
    told-scoped_schedule (λ n. n) 60 true report (codes "tenants") none (some 900) wrapped
      (refl, refl, refl, refl, refl) refl
