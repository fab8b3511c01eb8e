-- ===== src/Schemas/Stage/Stops.antt =====
-- When done stops the run: at the first failure without --keep-going, else at one shard's
-- max_failures in a row.
use mt_shards_back_test.Base.{
  suc, ◌<◌, ◌≡◌, refl, ap, ◌∙◌, sym, Bool, true, false, ◌&&◌, Option, some, none, List, [], ◌∷◌,
  inl, inr, Text, text_eq, text_eq_iff, arith, Bool-cases, is_some, any, leb,
}
use mt_shards_back_test.Migrator.Run.Result.{Side}
use mt_shards_back_test.Schemas.Entries.{Entry, EntryKind, Stop, is_failed}
use mt_shards_back_test.Schemas.Queue.{Queues, queued, tally, nonempty}
use mt_shards_back_test.Schemas.Queue.Laws.{weight, tally-set_tally}
use mt_shards_back_test.Schemas.Stage.{
  Stage, halt, unreachable, counted, stop_on_failure, settled, remaining,
}
use mt_shards_back_test.Schemas.Stage.Cuts.{one, unreachable-Cuts, IsDrained, weight-emptied}

queued-remaining : (qs : Queues) → any (λ q. nonempty q.1) qs ≡ false → weight one (queued qs) ≡ 0
unfolding any weight queued
queued-remaining [] h = refl
queued-remaining ((t, []) ∷ qs) h = queued-remaining qs h
queued-remaining ((t, i ∷ is) ∷ qs) h = absurd (ground arith)

halt-queued :
    (stop : Stop) (override : Bool) (st : Stage) (es : List Entry)
    → weight one (queued (halt stop override st es).0.queues) ≡ 0
unfolding halt
halt-queued stop override st es = weight-emptied (λ i. none) one st.queues

pub halt-stop :
    (stop : Stop) (override : Bool) (st : Stage) (es : List Entry)
    → is_some (halt stop override st es).0.stop ≡ true
unfolding halt
halt-stop stop override st es = ground arith

fail-fast :
    (shard : Text) (st : Stage) (es : List Entry)
    → st.keep_going ≡ false
    → IsDrained st
    → weight one (queued (stop_on_failure shard EntryKind.failed st es).0.queues) ≡ 0
unfolding stop_on_failure remaining
fail-fast shard st es g d = elim (Bool-cases (is_some st.stop)) [
  | inl e ↦ rw e (d e)
  | inr n ↦
      rw (n, g)
        (elim (Bool-cases (any (λ q. nonempty q.1) st.queues)) [
          | inl m ↦ rw m (halt-queued Stop.fail_fast false st es)
          | inr m ↦ rw m (queued-remaining st.queues m)
        ])
]

-- Without --keep-going nothing is queued after a failure.
pub settled-failed :
    (side : Option Side) (shard : Text) (st : Stage) (es : List Entry)
    → st.keep_going ≡ false
    → IsDrained st
    → weight one (queued (settled side shard EntryKind.failed st es).0.queues) ≡ 0
settled-failed (some Side.default) shard st es g d =
    halt-queued Stop.default_unreachable false st es
settled-failed (some Side.shard) shard st es g d =
    fail-fast shard (unreachable shard st es).0 (unreachable shard st es).1 g
      ((unreachable-Cuts (λ i. none) shard st es).drained d)
settled-failed none shard st es g d = fail-fast shard (counted shard EntryKind.failed st) es g d

abbrev pub IsPatient : Stage → Type 0
IsPatient st =
    is_some st.stop ≡ false
    → st.keep_going ≡ true
    → (s : Text) → tally s st.consecutive < st.max_failures

abbrev IsUnder : Text → EntryKind → Stage → Text → Type 0
IsUnder shard k st s =
    (text_eq s shard && is_failed k) ≡ false → tally s st.consecutive < st.max_failures

stop_on_failure-IsPatient :
    (shard : Text) (k : EntryKind) (st : Stage) (es : List Entry)
    → (is_some st.stop ≡ false → st.keep_going ≡ true → (s : Text) → IsUnder shard k st s)
    → IsPatient (stop_on_failure shard k st es).0
unfolding stop_on_failure
stop_on_failure-IsPatient shard k st es under = elim (Bool-cases (is_failed k)) [
  | inr n ↦ rw n (λ live going s. under live going s (ground (arith, n)))
  | inl e ↦ rw e (elim (Bool-cases (is_some st.stop)) [
    | inl d ↦ rw d (λ live going s. absurd (ground (arith, d, live)))
    | inr l ↦ rw l (elim (Bool-cases st.keep_going) [
      | inr g ↦ rw g (elim (Bool-cases (remaining st)) [
        | inl m ↦
            rw m
              (λ live going s. absurd (ground (arith, halt-stop Stop.fail_fast false st es, live)))
        | inr m ↦ rw m (λ live going s. absurd (ground (arith, g, going)))
      ])
      | inl g ↦ rw g (elim (Bool-cases (leb st.max_failures (tally shard st.consecutive))) [
        | inl m ↦ rw m (λ live going s.
            absurd (ground (arith, halt-stop (Stop.max_failures shard) false st es, live)))
        | inr m ↦ rw m (λ live going s. elim (Bool-cases (text_eq s shard)) [
          | inl t ↦ rw ((text_eq_iff s shard).0 t) (ground (arith, m))
          | inr t ↦ under live g s (ground (arith, t))
        ])
      ])
    ])
  ])
]

counted-IsUnder :
    (shard : Text) (k : EntryKind) (st : Stage)
    → 0 < st.max_failures
    → ((s : Text) → tally s st.consecutive < st.max_failures)
    → (s : Text) → IsUnder shard k (counted shard k st) s
counted-IsUnder shard EntryKind.failed st pos h s u =
    ground
      (arith, u, h s, tally-set_tally s shard (suc (tally shard st.consecutive)) st.consecutive)
counted-IsUnder shard EntryKind.ok st pos h s u =
    ground (arith, pos, h s, tally-set_tally s shard 0 st.consecutive)
counted-IsUnder shard EntryKind.noop st pos h s u =
    ground (arith, pos, h s, tally-set_tally s shard 0 st.consecutive)
counted-IsUnder shard EntryKind.skipped st pos h s u = h s
counted-IsUnder shard EntryKind.not_run st pos h s u = h s
counted-IsUnder shard EntryKind.interrupted st pos h s u = h s
counted-IsUnder shard EntryKind.running st pos h s u = h s

counted-stop : (shard : Text) (k : EntryKind) (st : Stage) → (counted shard k st).stop ≡ st.stop
counted-stop shard k st = ground arith

counted-keep_going :
    (shard : Text) (k : EntryKind) (st : Stage) → (counted shard k st).keep_going ≡ st.keep_going
counted-keep_going shard k st = ground arith

pub settled-IsPatient :
    (side : Option Side) (shard : Text) (k : EntryKind) (st : Stage) (es : List Entry)
    → 0 < st.max_failures
    → IsPatient st
    → IsPatient (settled side shard k st es).0
unfolding stop_on_failure
settled-IsPatient (some Side.default) shard k st es pos h =
    λ live going s. absurd (ground (arith, halt-stop Stop.default_unreachable false st es, live))
settled-IsPatient (some Side.shard) shard k st es pos h =
    stop_on_failure-IsPatient shard k (unreachable shard st es).0 (unreachable shard st es).1
      (λ live going s u. h live going s)
settled-IsPatient none shard k st es pos h =
    stop_on_failure-IsPatient shard k (counted shard k st) es (λ live going s.
      counted-IsUnder shard k st pos
        (h (ap is_some (sym (counted-stop shard k st)) ∙ live)
          (sym (counted-keep_going shard k st) ∙ going))
        s)
