-- ===== src/Schemas/Pool/Answers.antt =====
-- migrate_schemas.py: the exit code of a run of the parallel loop, and what its waits gave.
use mt_shards_back_test.Base.{
  ℕ, suc, zero, ◌≡◌, refl, ap, sym, ◌∙◌, Bool, true, false, some, List, map, inl, inr, ◌+◌, ◌<◌,
  arith, length, Bool-cases, is_some,
}
use mt_shards_back_test.Schemas.Entries.{Entry, Target, entry, exit_code}
use mt_shards_back_test.Schemas.Pool.{
  Pool, World, Turn, is_in, receive, any_broken, prepared, turn, run_parallel, cut_off,
}
use mt_shards_back_test.Schemas.Stage.Cuts.{good}
use mt_shards_back_test.Schemas.Pool.Invariant.{List-cases}
use mt_shards_back_test.Schemas.Pool.Reach.{here, opened}
use mt_shards_back_test.Schemas.Pool.Turns.{cut_off-stop, turn-ended, turn-waited}
use mt_shards_back_test.Schemas.Pool.Codes.{gave, good-prepared, good-receive, exit_code-good}
use mt_shards_back_test.Schemas.Pool.Trace.{some_inj, run_parallel-Reach}

module _ (world : World) (jobs per_shard i : ℕ) where
  -- In its k-th turn from a state, or in a turn after that, the loop waits on a dict that holds the
  -- entry at `i`, and this wait finds a future of it that returned ok or noop. The states and the
  -- waits are those of the run of the loop in its world.
  pub data Answered : ℕ → Pool → Type 0 where
    answered_now :
        {k : ℕ} {p : Pool}
        → is_in i (prepared world jobs per_shard k p).running ≡ true
        → gave i (world.wait k (prepared world jobs per_shard k p).running) ≡ true
        → Answered k p
    answered_later :
        {k : ℕ} {p q : Pool}
        → turn world jobs per_shard k p ≡ Turn.again q
        → Answered (suc k) q
        → Answered k p

  -- A turn that goes on has a wait that finds the entry's success, or leaves it without one.
  turn-Answered :
      (k : ℕ) (p q : Pool)
      → turn world jobs per_shard k p ≡ Turn.again q
      → q
        ≡ receive
            (world.wait k (prepared world jobs per_shard k p).running)
            (prepared world jobs per_shard k p)
      → good i p.entries ≡ false
      → (good i q.entries ≡ false → Answered (suc k) q)
      → Answered k p
  turn-Answered k p q e same bad rest = elim (Bool-cases (good i q.entries)) [
    | inr n ↦ answered_later e (rest n)
    | inl g ↦
        let r = prepared world jobs per_shard k p in
        let found = world.wait k r.running in
        let got = good-receive i found r (ap (λ x. good i x.entries) (sym same) ∙ g) in
        elim (Bool-cases (good i r.entries)) [
          | inl b ↦ absurd (ground (arith, bad, good-prepared world i jobs per_shard k p b))
          | inr b ↦ answered_now (ground (arith, got, b)) (ground (arith, got, b))
        ]
  ]

  run_parallel-Answered :
      (fuel k : ℕ) (p q : Pool)
      → run_parallel world jobs per_shard fuel k p ≡ some q
      → is_some q.stage.stop ≡ false
      → good i q.entries ≡ true
      → good i p.entries ≡ false
      → Answered k p
  unfolding run_parallel
  run_parallel-Answered zero k p q h live g bad = absurd (ground arith)
  run_parallel-Answered (suc fuel) k p q h live g bad =
      let r = prepared world jobs per_shard k p in
      elim (List-cases r.running) [
        | inl e ↦
            let ended = turn-ended world jobs per_shard k p e in
            let same : some r ≡ some q = sym (rw (run_parallel, ended) refl) ∙ h in
            absurd (
              ground (
                arith,
                bad,
                good-prepared world i jobs per_shard k p
                    (ap (λ x. good i x.entries) (some_inj same) ∙ g),
              ))
        | inr (j, js, e) ↦
            let found = world.wait k r.running in
            let step = turn-waited world jobs per_shard k p j js e in
            elim (Bool-cases (any_broken found)) [
              | inl b ↦
                  let c = cut_off world k (receive found r) in
                  let broke : turn world jobs per_shard k p ≡ Turn.broke c = step ∙ rw b refl in
                  let same : some c ≡ some q = sym (rw (run_parallel, broke) refl) ∙ h in
                  absurd (
                    ground (
                      arith,
                      live,
                      ap (λ x. is_some x.stage.stop) (sym (some_inj same))
                          ∙ cut_off-stop world k (receive found r),
                    ))
              | inr n ↦
                  let x = receive found r in
                  let again : turn world jobs per_shard k p ≡ Turn.again x = step ∙ rw n refl in
                  let same : run_parallel world jobs per_shard fuel (suc k) x ≡ some q =
                    sym (rw (run_parallel, again) refl) ∙ h in
                  turn-Answered k p x again refl bad
                    (run_parallel-Answered fuel (suc k) x q same live g)
            ]
      ]

-- Where the parallel loop ends with entries that give the exit code 0, each of its targets, that at
-- `k` among them, was answered in this run: one of its waits, on a dict with that target, found that
-- its future had returned ok or noop.
pub run_parallel_code :
    (world : World) (jobs per_shard fuel : ℕ) (front : List Entry) (ts : List Target)
    (keep_going : Bool) (max_failures : ℕ) (q : Pool)
    → run_parallel world jobs per_shard fuel 0 (opened front (map entry ts) keep_going max_failures)
      ≡ some q
    → exit_code q.entries q.stage.stop ≡ 0
    → (k : ℕ) → k < length ts
    → Answered world jobs per_shard
        (length front + k)
        0
        (opened front (map entry ts) keep_going max_failures)
unfolding exit_code
run_parallel_code world jobs per_shard fuel front ts keep_going max_failures q h code k below =
    let s = opened front (map entry ts) keep_going max_failures in
    let live : is_some q.stage.stop ≡ false = ground (arith, code) in
    elim (run_parallel-Reach jobs per_shard s world fuel 0 s q here h) [
      | inr stop ↦ absurd (ground (arith, stop, live))
      | inl r ↦
          let (done, fresh) = exit_code-good front ts keep_going max_failures r code k below in
          run_parallel-Answered world jobs per_shard (length front + k) fuel 0 s q h live done fresh
    ]
