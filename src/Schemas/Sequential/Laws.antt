-- ===== src/Schemas/Sequential/Laws.antt =====
-- The sequential loop: its states are among those of a pool of one worker.
use mt_shards_back_test.Base.{
  ℕ, suc, zero, ◌≤◌, ◌<◌, ◌≡◌, refl, ap, ◌∙◌, Bool, true, false, Option, none, some, List, [], ◌∷◌,
  ◌++◌, inl, inr, Text, arith, length, Option-cases,
}
use mt_shards_back_test.Base.Exec.{Exec, Outcome, Outcome-cases}
use mt_shards_back_test.Migrator.Run.Result.{Result}
use mt_shards_back_test.Schemas.Entries.{Entry, Stop, entry_at}
use mt_shards_back_test.Schemas.Queue.{queued}
use mt_shards_back_test.Schemas.Queue.Laws.{weight}
use mt_shards_back_test.Schemas.Stage.{stage_of}
use mt_shards_back_test.Schemas.Stage.Cuts.{one, shard_of}
use mt_shards_back_test.Schemas.Pool.{Pool, Completion, submit, stopped, finish, is_in}
use mt_shards_back_test.Schemas.Pool.Invariant.{submit-Handed, handed}
use mt_shards_back_test.Schemas.Pool.Reach.{
  Reach, here, later, hands, takes, halts, opened, Reach-Inv, queued-queued_from,
}
use mt_shards_back_test.Schemas.Pool.Ends.{
  waiting, in_pool, submit-waiting, stopped-waiting, finish-waiting,
}
use mt_shards_back_test.Schemas.Pool.Turns.{idle}
use mt_shards_back_test.Schemas.Sequential.{
  run_sequential, End, work_on, after_work, id_in, drained_by,
}

running-none : (xs : List ℕ) → weight one xs ≡ 0 → xs ≡ []
unfolding weight
running-none [] h = refl
running-none (x ∷ xs) h = absurd (omega (arith, h))

is_in-first : (i : ℕ) → is_in i (i ∷ []) ≡ true
unfolding is_in
is_in-first i = ground arith

handed-running :
    (jobs per_shard : ℕ) (p q : Pool)
    → submit jobs per_shard p ≡ some q
    → (i : ℕ) × (q.running ≡ i ∷ p.running)
unfolding handed
handed-running jobs per_shard p q h =
    let s = submit-Handed jobs per_shard p q h in (s.first, ap (λ x. x.running) s.is_next)

module _ (front es : List Entry) (keep_going : Bool) (max_failures : ℕ) where
  unfoldable pub first : Pool
  unfolding opened
  first = opened front es keep_going max_failures

  module _ {X S : Type 0} (work : Option ℕ → Exec X S Result) (signalled : S → Bool) where
    -- The entry at `i` is the next target of a state, and runs alone.
    pub record Next (p : Pool) (s : S) (i : ℕ) (q : Pool) : Type 0 where
      pub taken : submit 1 1 (drained_by (signalled s) p) ≡ some q
      pub alone : q.running ≡ i ∷ []

    -- Turns of the loop: each does the work of the next target, and takes the result that it returns.
    pub data Turns : Pool → S → Pool → S → Type 0 where
      no_turn : {p : Pool} {s : S} → Turns p s p s
      turn_then :
          {p q p' : Pool} {s t s' : S} (i : ℕ) (res : Result)
          → Next p s i q
          → work (id_in (entry_at i q.entries)) s ≡ (Outcome.ok res, t)
          → Turns (finish i (Completion.returned res) q) t p' s'
          → Turns p s p' s'

    -- How the loop ends after its turns: there is no next target, nothing is queued and nothing runs,
    -- or the work of the next target raises.
    pub data Last (p : Pool) (s : S) : End X S → Type 0 where
      no_more :
          submit 1 1 (drained_by (signalled s) p) ≡ none
          → waiting (drained_by (signalled s) p) ≡ 0
          → in_pool (drained_by (signalled s) p) ≡ 0
          → Last p s (Outcome.ok tt, drained_by (signalled s) p, s)
      raises :
          {q : Pool} {t : S} (i : ℕ) (x : X)
          → Next p s i q
          → work (id_in (entry_at i q.entries)) s ≡ (Outcome.raise x, t)
          → Last p s (Outcome.raise x, q, t)

    -- A run of the loop from a state: its turns, the state after them, and its end.
    pub record Ends (p : Pool) (s : S) (o : Option (End X S)) : Type 0 where
      pub ending : End X S
      pub gives : o ≡ some ending
      pub before : Pool
      pub state : S
      pub turns : Turns p s before state
      pub last : Last before state ending
      pub reached : Reach 1 1 first ending.1

    drained-Reach :
        (drain : Bool) (p : Pool) → Reach 1 1 first p → Reach 1 1 first (drained_by drain p)
    drained-Reach true p r = later r (halts Stop.signal false)
    drained-Reach false p r = r

    drained-waiting : (drain : Bool) (p : Pool) → waiting (drained_by drain p) ≤ waiting p
    drained-waiting true p = omega (arith, stopped-waiting Stop.signal false p)
    drained-waiting false p = omega arith

    drained-running : (drain : Bool) (p : Pool) → in_pool (drained_by drain p) ≡ in_pool p
    unfolding stopped
    drained-running true p = refl
    drained-running false p = refl

    -- What follows the work on an entry that runs alone, given the rest of the loop.
    after :
        (i : ℕ) (p q : Pool) (s : S) (fuel : ℕ)
        → Reach 1 1 first q
        → Next p s i q
        → {o : Option (End X S)}
        → o
          ≡ after_work work signalled
              (run_sequential work signalled fuel)
              i
              q
              (work (id_in (entry_at i q.entries)) s)
        → waiting q < fuel
        → in_pool q ≡ 1
        → ((x : Pool) (t : S)
            → Reach 1 1 first x
            → in_pool x ≡ 0
            → waiting x < fuel
            → Ends x t (run_sequential work signalled fuel x t))
        → Ends p s o
    after i p q s fuel r next step less runs rest =
        let w = work (id_in (entry_at i q.entries)) s in
        let follow : Outcome X Result × S → Option (End X S) =
          after_work work signalled (run_sequential work signalled fuel) i q in
        elim (Outcome-cases w.0) [
          | inl (res, e) ↦
              let m : is_in i q.running ≡ true = rw next.alone (is_in-first i) in
              let f = finish-waiting i (Completion.returned res) q m in
              let done : w ≡ (Outcome.ok res, w.1) = ap (λ y. (y, w.1)) e in
              let z =
                rest (finish i (Completion.returned res) q) w.1
                  (later r (takes i (Completion.returned res) m refl)) (omega (arith, f.1, runs))
                  (omega (arith, f.0, less)) in
              record {
                ending = z.ending;
                gives = step ∙ ap follow done ∙ z.gives;
                before = z.before;
                state = z.state;
                turns = turn_then i res next done z.turns;
                last = z.last;
                reached = z.reached;
              }
          | inr (x, e) ↦
              let done : w ≡ (Outcome.raise x, w.1) = ap (λ y. (y, w.1)) e in
              record {
                ending = (Outcome.raise x, q, w.1);
                gives = step ∙ ap follow done;
                before = p;
                state = s;
                turns = no_turn;
                last = raises i x next done;
                reached = r;
              }
        ]

    run_sequential-Ends :
        (fuel : ℕ) (p : Pool) (s : S)
        → Reach 1 1 first p
        → in_pool p ≡ 0
        → waiting p < fuel
        → Ends p s (run_sequential work signalled fuel p s)
    unfolding run_sequential opened first
    run_sequential-Ends zero p s r idle_now h = absurd (omega arith)
    run_sequential-Ends (suc fuel) p s r idle_now h =
        let d = drained_by (signalled s) p in
        let rd = drained-Reach (signalled s) p r in
        let none_runs : in_pool d ≡ 0 = drained-running (signalled s) p ∙ idle_now in
        let empty = running-none d.running none_runs in
        elim (Option-cases (submit 1 1 d)) [
          | inl e ↦ record {
            ending = (Outcome.ok tt, d, s);
            gives = rw (run_sequential, e) refl;
            before = p;
            state = s;
            turns = no_turn;
            last =
                no_more e
                  (idle home 1 1 (omega arith) (omega arith) d
                    (Reach-Inv front es keep_going max_failures 1 1 rd) empty e)
                  none_runs;
            reached = rd;
          }
          | inr (q, e) ↦
              let (i, runs) = handed-running 1 1 d q e in
              let alone : q.running ≡ i ∷ [] = runs ∙ ap (λ xs. i ∷ xs) empty in
              let less = submit-waiting 1 1 d q e in
              let step : run_sequential work signalled (suc fuel) p s
                  ≡ after_work work signalled (run_sequential work signalled fuel) i q
                      (work (id_in (entry_at i q.entries)) s) =
                rw (run_sequential, e)
                  (ap (λ xs. work_on work signalled (run_sequential work signalled fuel) xs q s)
                    alone) in
              after i p q s fuel (later rd (hands e)) (record { taken = e; alone = alone }) step
                (omega (arith, h, less.0, drained-waiting (signalled s) p))
                (omega (arith, less.1, none_runs)) (run_sequential-Ends fuel)
        ]
      where
        home : ℕ → Option Text
        home j = shard_of j (front ++ es)

    -- The sequential loop ends, after at most one turn for each target and one more. Its turns do the
    -- work of the next target each, with the result that this work returns; then either it returns,
    -- with no target queued or running, or it raises what the work of the next target raises. Its
    -- last state is one of a pool of one worker.
    pub run_sequential_lem :
        (s : S) → Ends first s (run_sequential work signalled (suc (length es)) first s)
    unfolding first opened stage_of weight queued
    run_sequential_lem s =
        run_sequential-Ends (suc (length es)) first s here refl
          (omega (arith, queued-queued_from (length front) es []))
