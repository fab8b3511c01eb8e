-- ===== src/Tests/Fanout.antt =====
-- The fanout of a daily task to two tenants, over a broker that refuses one of them once.
use mt_shards_back_test.Base.{
  ℕ, ◌+◌, ◌≡◌, refl, Bool, true, false, none, some, Text, codes, text_eq, elem, All, if◌then◌else◌,
  leb, List, [], ◌∷◌, arith,
}
use mt_shards_back_test.Base.Exec.{pure, throw, Exec, modify}
use mt_shards_back_test.Fanout.Watermark.{Entry, TaskRun, watermark, mark_ran}
use mt_shards_back_test.Fanout.Watermark.Waves.{Wave, run, merge, statements, mark_ran-converges}
use mt_shards_back_test.Fanout.Due.{Calendar, due_by_tenant_tz}
use mt_shards_back_test.Fanout.Due.Laws.{due_by_tenant_tz_iff, due_among}
use mt_shards_back_test.Fanout.Dispatch.{
  Batch, BeatConf, Request, Tick, batches, fanout_dispatch, Headers, Sending, accepted,
  operational_error, World, sub_dispatch,
}
use mt_shards_back_test.Fanout.Dispatch.Batches.{batches_lem, concat, Sized}
use mt_shards_back_test.Fanout.Dispatch.Laws.{fanned, fanout_dispatch_lem, sub_dispatch-not_due}

abbrev report : Entry
report = record { task = codes "report"; args_sig = [] }

abbrev acme : Text
acme = codes "acme"

abbrev beta : Text
beta = codes "beta"

abbrev rows : List TaskRun
rows = record { schema = acme; entry = report; last_run_at = 100 } ∷ []

abbrev early : Wave
early = record { entry = report; run_ts = 300; schemas = acme ∷ [] }

abbrev late : Wave
late = record { entry = report; run_ts = 900; schemas = acme ∷ beta ∷ [] }

abbrev order : List Bool
order = true ∷ false ∷ false ∷ []

mark_ran-converges_example :
    watermark report acme (run (merge order (statements early) (statements late)) rows)
    ≡ watermark report acme
        (mark_ran report 900 (acme ∷ beta ∷ []) (mark_ran report 300 (acme ∷ []) rows))
mark_ran-converges_example = mark_ran-converges report acme order early late rows

-- Occurrences at 0 and at 800, in the only zone there is.
abbrev daily : Calendar
daily = record {
  Zone = Unit {0};
  zone = λ name. if text_eq name (codes "UTC") then some tt else none;
  get_prev = λ cron tz now. if leb now 800 then 0 else 800;
}

abbrev tenants : List (Text × Text)
tenants = (acme, codes "UTC") ∷ (beta, codes "UTC") ∷ []

due_by_tenant_tz_example :
    elem acme (due_by_tenant_tz daily report (codes "0 8 * * *") 900 300 tenants rows)
    ≡ due_among daily (codes "0 8 * * *") 900 300 (watermark report acme rows) acme tenants
due_by_tenant_tz_example =
    due_by_tenant_tz_iff daily report (codes "0 8 * * *") 900 300 tenants rows acme

batches_example :
    (concat (batches 2 (acme ∷ beta ∷ acme ∷ [])) ≡ acme ∷ beta ∷ acme ∷ [])
    × All (Sized 2) (batches 2 (acme ∷ beta ∷ acme ∷ []))
batches_example = batches_lem 2 (acme ∷ beta ∷ acme ∷ []) (omega arith)

abbrev conf : BeatConf
conf = record { batch_size = 2; tz_grace = 300 }

abbrev tick : List Batch → Tick
tick q = record { now = 900; active = acme ∷ beta ∷ []; with_tz = tenants; rows = rows }

abbrev delay : Batch → Exec Bool (List Batch) (Unit {0})
delay b = modify (λ q. (tt, b ∷ q))

abbrev request : Request
request = record {
  entry = report;
  cron = some (codes "0 8 * * *");
  grace = none;
  batch_size = none;
}

-- A lock that expired before its release.
fanout_dispatch_example :
    (fanout_dispatch daily conf tick delay (pure true) (throw true) (λ x. x) request []).0
    ≡ ((if true
          then fanned daily conf tick delay (pure true) (throw true) (λ x. x) request
          else pure none)
        []).0
unfolding pure throw
fanout_dispatch_example =
    fanout_dispatch_lem daily conf tick delay (pure true) (throw true) (λ x. x) request [] [] true
      refl (λ x t h. cc (h))

-- The broker loses its connection at the second message.
abbrev send : Headers → ℕ → Sending × ℕ
send hs n = (if leb n 0 then accepted else operational_error, n + 1)

abbrev batch : Batch
batch = record { schemas = acme ∷ beta ∷ []; run_ts = some 900 }

abbrev world : World ℕ
world = record { broker = 0; rows = rows }

sub_dispatch-not_due_example :
    elem acme (
      due_by_tenant_tz daily report
        (codes "0 8 * * *")
        960
        300
        tenants
        (sub_dispatch send report none batch world).1.rows)
    ≡ false
unfolding elem text_eq sub_dispatch
sub_dispatch-not_due_example =
    sub_dispatch-not_due send daily report (codes "0 8 * * *") none batch world 900 960 300 tenants
      (acme ∷ []) acme refl refl refl (λ name tz m z. omega arith)
