-- ===== src/Schemas/Pool/Stops.antt =====
-- The stop rules over a whole run.
use mt_shards_back_test.Base.{
  ℕ, suc, zero, ◌-◌, ◌≤◌, ◌<◌, ◌≡◌, refl, ap, ◌∙◌, sym, Bool, true, false, Option, some, none, List,
  [], ◌∷◌, ◌++◌, inl, inr, Text, arith, Option-cases, is_some,
}
use mathlib.Core.Path.{subst}
use mt_shards_back_test.Schemas.Entries.{
  Entry, EntryKind, entry_at, write, is_failed, take, kind_of,
}
use mt_shards_back_test.Schemas.Queue.{tally, set_tally}
use mt_shards_back_test.Schemas.Stage.{Stage, halt, done, stage_of}
use mt_shards_back_test.Schemas.Stage.Cuts.{shard_of, IsDrained, settled-Cuts}
use mt_shards_back_test.Schemas.Stage.Stops.{
  IsPatient, halt-stop, settled-IsPatient, settled-failed,
}
use mt_shards_back_test.Schemas.Pool.{
  is_in, Pool, Completion, submit, stopped, finish, done_at, collect,
}
use mt_shards_back_test.Schemas.Pool.Invariant.{running-there, submit-Handed, handed}
use mt_shards_back_test.Schemas.Pool.Ends.{waiting, submit-waiting, finish-waiting, stopped-waiting}
use mt_shards_back_test.Schemas.Pool.Reach.{
  Step, Reach, here, later, hands, takes, halts, opened, Reach-Inv,
}

record Rules (keep_going : Bool) (max_failures : ℕ) (st : Stage) : Type 0 where
  going : st.keep_going ≡ keep_going
  cap : st.max_failures ≡ max_failures
  patient : IsPatient st

module _ (keep_going : Bool) (max_failures : ℕ) (pos : 0 < max_failures) where
  done_at-Rules :
      (o : Option Entry) (running : List ℕ) (st : Stage) (es : List Entry)
      → Rules keep_going max_failures st
      → Rules keep_going max_failures (done_at o running st es).stage
  unfolding done
  done_at-Rules none running st es r = r
  done_at-Rules (some e) running st es r =
      let shard = e.target.shard in
      let st' = record st {
        inflight = set_tally shard (tally shard st.inflight - 1) st.inflight;
      } in
      let c = settled-Cuts (λ j. none) e.conn_error shard e.kind st' es in
      record {
        going = c.going ∙ r.going;
        cap = c.cap ∙ r.cap;
        patient =
            settled-IsPatient e.conn_error shard e.kind st' es (omega (arith, r.cap)) r.patient;
      }

  Step-Rules :
      {jobs per_shard : ℕ} {p q : Pool}
      → Step jobs per_shard p q
      → Rules keep_going max_failures p.stage
      → Rules keep_going max_failures q.stage
  unfolding handed finish stopped halt
  Step-Rules {jobs} {per_shard} {p} {q} (hands h) r =
      let s = submit-Handed jobs per_shard p q h in
      let st = ap (λ x. x.stage) s.is_next in
      subst (Rules keep_going max_failures) (sym st)
        (record { going = r.going; cap = r.cap; patient = r.patient })
  Step-Rules {p = p} (takes i c m n) r =
      done_at-Rules (entry_at i (write i (collect c) p.entries)) _ p.stage _ r
  Step-Rules {p = p} (halts stop override) r = record {
    going = r.going;
    cap = r.cap;
    patient =
        λ live going s. absurd (ground (arith, halt-stop stop override p.stage p.entries, live));
  }

  Reach-Rules :
      (front es : List Entry) {jobs per_shard : ℕ} {p : Pool}
      → Reach jobs per_shard (opened front es keep_going max_failures) p
      → Rules keep_going max_failures p.stage
  unfolding opened stage_of tally
  Reach-Rules front es here = record { going = refl; cap = refl; patient = λ live going s. pos }
  Reach-Rules front es (later r st) = Step-Rules st (Reach-Rules front es r)

pub tally_under :
    (front es : List Entry) (max_failures : ℕ) {jobs per_shard : ℕ} {p : Pool}
    → 0 < max_failures
    → Reach jobs per_shard (opened front es true max_failures) p
    → p.stage.stop ≡ none
    → (shard : Text) → tally shard p.stage.consecutive < max_failures
tally_under front es max_failures {p = p} pos r live shard =
    let rules = Reach-Rules true max_failures pos front es r in
    omega (arith, rules.cap, rules.patient (ap is_some live) rules.going shard)

abbrev pub fails : Completion → Bool
fails (Completion.returned res) = is_failed (kind_of res.kind)
fails Completion.raised = true
fails Completion.pool_broken = false

collect-failed :
    (i : ℕ) (c : Completion) (es : List Entry) (e : Entry)
    → fails c ≡ true
    → entry_at i (write i (collect c) es) ≡ some e
    → e.kind ≡ EntryKind.failed
unfolding entry_at write collect take kind_of
collect-failed i c [] e f h = absurd (ground arith)
collect-failed zero (Completion.returned res) (x ∷ es) e f h = ground arith
collect-failed zero Completion.raised (x ∷ es) e f h = ground arith
collect-failed zero Completion.pool_broken (x ∷ es) e f h = absurd (ground arith)
collect-failed (suc i) c (x ∷ es) e f h = collect-failed i c es e f h

Step-waiting : {jobs per_shard : ℕ} {p q : Pool} → Step jobs per_shard p q → waiting q ≤ waiting p
Step-waiting (hands h) = omega (arith, submit-waiting _ _ _ _ h)
Step-waiting (takes i c m n) = (finish-waiting i c _ m).0
Step-waiting {p = p} (halts stop override) = omega (arith, stopped-waiting stop override p)

Reach-waiting : {jobs per_shard : ℕ} {p q : Pool} → Reach jobs per_shard p q → waiting q ≤ waiting p
Reach-waiting here = omega arith
Reach-waiting (later r s) = omega (arith, Reach-waiting r, Step-waiting s)

finish-fails :
    (i : ℕ) (c : Completion) (p : Pool)
    → fails c ≡ true
    → p.stage.keep_going ≡ false
    → IsDrained p.stage
    → is_some (entry_at i (write i (collect c) p.entries)) ≡ true
    → waiting (finish i c p) ≡ 0
unfolding finish done
finish-fails i c p f g d there = elim (Option-cases (entry_at i (write i (collect c) p.entries))) [
  | inl n ↦ absurd (ground arith)
  | inr (e, h) ↦
      rw (h, collect-failed i c p.entries e f h)
        (settled-failed e.conn_error e.target.shard _ _ g d)
]

-- Without --keep-going no target is handed over any more once one has failed.
pub Reach-fail_fast :
    (front es : List Entry) (max_failures : ℕ) {jobs per_shard : ℕ} {p q : Pool} (i : ℕ)
    (c : Completion)
    → 0 < max_failures
    → Reach jobs per_shard (opened front es false max_failures) p
    → is_in i p.running ≡ true
    → fails c ≡ true
    → Reach jobs per_shard (finish i c p) q
    → submit jobs per_shard q ≡ none
Reach-fail_fast front es max_failures {jobs} {per_shard} {p} {q} i c pos r m f later_on =
    let v = Reach-Inv front es false max_failures jobs per_shard r in
    let rules = Reach-Rules false max_failures pos front es r in
    let there = running-there (λ j. shard_of j (front ++ es)) jobs per_shard i c p v m in
    let none_queued = finish-fails i c p f rules.going v.drained there in
    elim (Option-cases (submit jobs per_shard q)) [
      | inl n ↦ n
      | inr (x, h) ↦
          absurd (
            omega (arith, none_queued, Reach-waiting later_on, submit-waiting jobs per_shard q x h))
    ]
