-- ===== src/Schemas/Pool/Streaks.antt =====
-- The failures in a row of a shard, counted along a run.
use mt_shards_back_test.Base.{
  ℕ, suc, zero, ◌-◌, ◌<◌, ◌≡◌, refl, ap, ◌∙◌, Bool, true, false, Option, some, none, List, [], ◌∷◌,
  Text, arith, is_some, text_eq, text_eq_iff, if◌then◌else◌,
}
use mt_shards_back_test.Migrator.Run.Result.{ResultKind, Side}
use mt_shards_back_test.Schemas.Entries.{
  Entry, EntryKind, Stop, entry_at, write, is_failed, succeeded, take, kind_of,
}
use mt_shards_back_test.Schemas.Queue.{tally, set_tally}
use mt_shards_back_test.Schemas.Queue.Laws.{tally-set_tally}
use mt_shards_back_test.Schemas.Stage.{
  Stage, halt, done, stage_of, settled, counted, stop_on_failure, unreachable,
}
use mt_shards_back_test.Schemas.Pool.{
  is_broken, Pool, Completion, stopped, finish, done_at, collect, removed,
}
use mt_shards_back_test.Schemas.Pool.Invariant.{submit-Handed, handed}
use mt_shards_back_test.Schemas.Pool.Reach.{Step, Reach, here, later, hands, takes, halts, opened}
use mt_shards_back_test.Schemas.Pool.Stops.{tally_under}

-- The failures in a row after one more Result of a kind.
abbrev pub kind_streak : ResultKind → ℕ → ℕ
kind_streak ResultKind.ok n = 0
kind_streak ResultKind.noop n = 0
kind_streak ResultKind.failed n = suc n
kind_streak ResultKind.skipped n = n

-- The same after a future of an entry: an exception of the work is a failure, and neither counts nor
-- ends a row where the connection to the shard or to default was lost, which is not a failure of
-- the target.
abbrev pub streak : Completion → Entry → ℕ → ℕ
streak (Completion.returned res) e n = if is_some res.conn_error then n else kind_streak res.kind n
streak Completion.raised e n = if is_some e.conn_error then n else suc n
streak Completion.pool_broken e n = n

abbrev pub streak_at : Text → Completion → Option Entry → ℕ → ℕ
streak_at shard c none n = n
streak_at shard c (some e) n = if text_eq shard e.target.shard then streak c e n else n

-- The failures in a row on a shard at the end of a run, from what its futures came to, in the order
-- in which they ended.
unfoldable pub in_a_row : {jobs per_shard : ℕ} {s p : Pool} → Text → Reach jobs per_shard s p → ℕ
in_a_row shard here = 0
in_a_row shard (later r (hands h)) = in_a_row shard r
in_a_row shard (later {p = p} r (takes i c m n)) =
    streak_at shard c (entry_at i p.entries) (in_a_row shard r)
in_a_row shard (later r (halts stop override)) = in_a_row shard r

abbrev collected : Completion → Option Entry → Option Entry
collected c none = none
collected c (some e) = some (collect c e)

entry_at-write :
    (i : ℕ) (c : Completion) (es : List Entry)
    → entry_at i (write i (collect c) es) ≡ collected c (entry_at i es)
unfolding entry_at write
entry_at-write i c [] = refl
entry_at-write zero c (e ∷ es) = refl
entry_at-write (suc i) c (e ∷ es) = entry_at-write i c es

halt-consecutive :
    (stop : Stop) (override : Bool) (st : Stage) (es : List Entry)
    → (halt stop override st es).0.consecutive ≡ st.consecutive
unfolding halt
halt-consecutive stop override st es = refl

stop_on_failure-consecutive :
    (shard : Text) (k : EntryKind) (st : Stage) (es : List Entry)
    → (stop_on_failure shard k st es).0.consecutive ≡ st.consecutive
unfolding stop_on_failure halt
stop_on_failure-consecutive shard k st es = ground arith

counted-tally :
    (s shard : Text) (k : EntryKind) (st : Stage)
    → tally s (counted shard k st).consecutive ≡ (
        if text_eq s shard
        then (if is_failed k
            then suc (tally s st.consecutive)
            else if succeeded k
            then 0
            else tally s st.consecutive)
        else tally s st.consecutive)
counted-tally s shard k st = ground (
  arith,
  tally-set_tally s shard (suc (tally shard st.consecutive)) st.consecutive,
  tally-set_tally s shard 0 st.consecutive,
  text_eq_iff s shard,
)

-- What one more entry of a kind makes of a row.
abbrev kind_row : EntryKind → ℕ → ℕ
kind_row k n = if is_failed k then suc n else if succeeded k then 0 else n

kind_row-kind_of : (k : ResultKind) (n : ℕ) → kind_row (kind_of k) n ≡ kind_streak k n
unfolding kind_of
kind_row-kind_of ResultKind.ok n = refl
kind_row-kind_of ResultKind.noop n = refl
kind_row-kind_of ResultKind.failed n = refl
kind_row-kind_of ResultKind.skipped n = refl

abbrev side_row : Option Side → EntryKind → ℕ → ℕ
side_row o k n = if is_some o then n else kind_row k n

settled-tally :
    (s shard : Text) (o : Option Side) (k : EntryKind) (st : Stage) (es : List Entry)
    → tally s (settled o shard k st es).0.consecutive
      ≡ (if text_eq s shard then side_row o k (tally s st.consecutive) else tally s st.consecutive)
settled-tally s shard (some Side.default) k st es =
    ap (tally s) (halt-consecutive Stop.default_unreachable false st es) ∙ ground arith
settled-tally s shard (some Side.shard) k st es =
    let u = unreachable shard st es in
    ap (tally s) (stop_on_failure-consecutive shard k u.0 u.1) ∙ ground arith
settled-tally s shard none k st es =
    ap (tally s) (stop_on_failure-consecutive shard k (counted shard k st) es)
    ∙ counted-tally s shard k st

collect-streak :
    (c : Completion) (e : Entry) (n : ℕ)
    → is_broken c ≡ false
    → side_row (collect c e).conn_error (collect c e).kind n ≡ streak c e n
unfolding collect take
collect-streak (Completion.returned res) e n b =
    ap (λ m. if is_some res.conn_error then n else m) (kind_row-kind_of res.kind n)
collect-streak Completion.raised e n b = refl
collect-streak Completion.pool_broken e n b = absurd (ground arith)

collect-shard : (c : Completion) (e : Entry) → (collect c e).target.shard ≡ e.target.shard
unfolding collect take
collect-shard (Completion.returned res) e = refl
collect-shard Completion.raised e = refl
collect-shard Completion.pool_broken e = refl

done_at-tally :
    (s : Text) (c : Completion) (o : Option Entry) (running : List ℕ) (st : Stage) (es : List Entry)
    → is_broken c ≡ false
    → tally s (done_at (collected c o) running st es).stage.consecutive
      ≡ streak_at s c o (tally s st.consecutive)
unfolding done
done_at-tally s c none running st es b = refl
done_at-tally s c (some e) running st es b =
    let x = collect c e in
    let st' = record st {
      inflight = set_tally x.target.shard (tally x.target.shard st.inflight - 1) st.inflight;
    } in
    settled-tally s x.target.shard x.conn_error x.kind st' es
    ∙ rw (collect-shard c e, collect-streak c e (tally s st.consecutive) b) refl

-- The counter of a stage is the number of failures in a row.
Step-tally :
    {jobs per_shard : ℕ} {s p q : Pool} (shard : Text) (r : Reach jobs per_shard s p)
    (st : Step jobs per_shard p q)
    → tally shard p.stage.consecutive ≡ in_a_row shard r
    → tally shard q.stage.consecutive ≡ in_a_row shard (later r st)
unfolding in_a_row finish stopped handed
Step-tally {jobs} {per_shard} {p = p} {q = q} shard r (hands h) e =
    let x = submit-Handed jobs per_shard p q h in
    ap (λ y. tally shard y.stage.consecutive) x.is_next ∙ e
Step-tally {p = p} shard r (takes i c m n) e =
    let es = write i (collect c) p.entries in
    ap (λ o. tally shard (done_at o (removed i p.running) p.stage es).stage.consecutive)
      (entry_at-write i c p.entries)
    ∙ done_at-tally shard c (entry_at i p.entries) _ p.stage es n
    ∙ ap (streak_at shard c (entry_at i p.entries)) e
Step-tally {p = p} shard r (halts stop override) e =
    ap (tally shard) (halt-consecutive stop override p.stage p.entries) ∙ e

Reach-tally :
    (front es : List Entry) (keep_going : Bool) (max_failures : ℕ) {jobs per_shard : ℕ} {p : Pool}
    (shard : Text) (r : Reach jobs per_shard (opened front es keep_going max_failures) p)
    → tally shard p.stage.consecutive ≡ in_a_row shard r
unfolding opened stage_of tally in_a_row
Reach-tally front es keep_going max_failures shard here = refl
Reach-tally front es keep_going max_failures shard (later r st) =
    Step-tally shard r st (Reach-tally front es keep_going max_failures shard r)

-- With --keep-going a run that has not stopped has seen fewer than max_failures failures in a row on
-- each shard, in the order in which its futures ended: a worker that returned failed or raised
-- counts, one that returned ok or noop ends the row, and one that was skipped or lost its
-- connection does neither.
pub Reach-patient :
    (front es : List Entry) (max_failures : ℕ) {jobs per_shard : ℕ} {p : Pool}
    → 0 < max_failures
    → (r : Reach jobs per_shard (opened front es true max_failures) p) → p.stage.stop ≡ none
    → (shard : Text) → in_a_row shard r < max_failures
Reach-patient front es max_failures pos r live shard = omega (
  arith,
  tally_under front es max_failures pos r live shard,
  Reach-tally front es true max_failures shard r,
)
