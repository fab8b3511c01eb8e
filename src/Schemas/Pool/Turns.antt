-- ===== src/Schemas/Pool/Turns.antt =====
-- The turns of the parallel loop, one after the other.
use mt_shards_back_test.Base.{
  ℕ, suc, zero, ◌+◌, ◌≤◌, ◌<◌, ◌≡◌, refl, ap, Bool, true, false, Option, some, none, List, [], ◌∷◌,
  inl, inr, Text, arith, length, Bool-cases, Option-cases, is_some, map, if◌then◌else◌,
}
use mt_shards_back_test.Schemas.Entries.{Stop}
use mt_shards_back_test.Schemas.Queue.{queue, queued, pick_next}
use mt_shards_back_test.Schemas.Queue.Laws.{weight, length-weight}
use mt_shards_back_test.Schemas.Queue.Pick.{pick_next-none, pick_next-some}
use mt_shards_back_test.Schemas.Queue.Distinct.{queued-empty}
use mt_shards_back_test.Schemas.Stage.{next, halt, kept_stop}
use mt_shards_back_test.Schemas.Stage.Cuts.{one, weight-emptied}
use mt_shards_back_test.Schemas.Pool.{
  Pool, World, Completion, Turn, submit, stopped, is_in, fill, receive, received, is_broken,
  prepared, waited, unless_idle, turn, cut_off,
}
use mt_shards_back_test.Schemas.Pool.Invariant.{
  Inv, is_shard, List-cases, submit-Inv, finish-Inv, stopped-Inv,
}
use mt_shards_back_test.Schemas.Pool.Ends.{waiting, in_pool, stopped-waiting, fill-full}

is_some-kept_stop :
    (override : Bool) (stop : Stop) (o : Option Stop) → is_some (kept_stop override stop o) ≡ true
is_some-kept_stop override stop none = refl
is_some-kept_stop override stop (some s) = refl

module _ (world : World) where
  pub cut_off-waiting : (k : ℕ) (p : Pool) → waiting (cut_off world k p) ≡ 0
  unfolding cut_off
  cut_off-waiting k p =
      weight-emptied (λ i. none) one
        (receive (map (λ x. (x.0, Completion.returned x.1)) (world.salvaged k p.running))
          p).stage.queues

  pub cut_off-stop : (k : ℕ) (p : Pool) → is_some (cut_off world k p).stage.stop ≡ true
  unfolding cut_off stopped halt
  cut_off-stop k p =
      is_some-kept_stop true (if world.hard k then Stop.hard_stop else Stop.broken_pool)
        (receive (map (λ x. (x.0, Completion.returned x.1)) (world.salvaged k p.running))
          p).stage.stop

  pub turn-ended :
      (jobs per_shard k : ℕ) (p : Pool)
      → (prepared world jobs per_shard k p).running ≡ []
      → turn world jobs per_shard k p ≡ Turn.ended (prepared world jobs per_shard k p)
  unfolding turn
  turn-ended jobs per_shard k p e =
      ap (λ js. unless_idle world js k (prepared world jobs per_shard k p)) e

  pub turn-waited :
      (jobs per_shard k : ℕ) (p : Pool) (i : ℕ) (is : List ℕ)
      → (prepared world jobs per_shard k p).running ≡ i ∷ is
      → turn world jobs per_shard k p ≡ waited world k (prepared world jobs per_shard k p)
  unfolding turn
  turn-waited jobs per_shard k p i is e =
      ap (λ js. unless_idle world js k (prepared world jobs per_shard k p)) e

module _ (home : ℕ → Option Text) (jobs per_shard : ℕ) where
  fill-Inv :
      (fuel : ℕ) (p : Pool)
      → Inv home jobs per_shard p
      → Inv home jobs per_shard (fill jobs per_shard fuel p)
  unfolding fill
  fill-Inv zero p v = v
  fill-Inv (suc fuel) p v = elim (Option-cases (submit jobs per_shard p)) [
    | inl e ↦ rw (fill, e) v
    | inr (q, e) ↦ rw (fill, e) (fill-Inv fuel q (submit-Inv home jobs per_shard p q v e))
  ]

  received-Inv :
      (x : ℕ × Completion) (p : Pool)
      → Inv home jobs per_shard p
      → Inv home jobs per_shard (received x p)
  unfolding received
  received-Inv (i, c) p v = elim (Bool-cases (is_broken c)) [
    | inl e ↦ rw e v
    | inr n ↦ rw n (elim (Bool-cases (is_in i p.running)) [
      | inl m ↦ rw m (finish-Inv home jobs per_shard i c p v m)
      | inr m ↦ rw m v
    ])
  ]

  pub receive-Inv :
      (xs : List (ℕ × Completion)) (p : Pool)
      → Inv home jobs per_shard p
      → Inv home jobs per_shard (receive xs p)
  unfolding receive
  receive-Inv [] p v = v
  receive-Inv (x ∷ xs) p v = receive-Inv xs (received x p) (received-Inv x p v)

  module _ (some_job : 0 < jobs) (some_room : 0 < per_shard) where
    -- While nothing runs, something is handed over as long as something is queued.
    pub idle :
        (p : Pool)
        → Inv home jobs per_shard p
        → p.running ≡ []
        → submit jobs per_shard p ≡ none
        → waiting p ≡ 0
    unfolding submit next weight
    idle p v r h = elim (Bool-cases (is_some p.stage.stop)) [
      | inl e ↦ v.drained e
      | inr n ↦
          let nothing : (w : ℕ → ℕ) → weight w p.running ≡ 0 = λ w. ap (weight w) r in
          elim (Option-cases
            (pick_next p.stage.queues p.stage.inflight jobs per_shard p.stage.last)) [
              | inl e ↦ queued-empty one p.stage.queues v.distinct (λ s.
                  pick_next-none p.stage.queues p.stage.inflight jobs per_shard p.stage.last s e
                    (omega (arith, v.summed, nothing one))
                    (omega (arith, v.tallied s, nothing (λ i. is_shard s (home i)))))
              | inr (s, e) ↦
                  let ok =
                    pick_next-some p.stage.queues p.stage.inflight jobs per_shard p.stage.last s
                      e in
                  elim (List-cases (queue s p.stage.queues)) [
                    | inl m ↦ absurd (ground (arith, ok.1))
                    | inr (i, rest, m) ↦ absurd (ground arith)
                  ]
            ]
    ]

    module _ (world : World) where
      pub prepared-Inv :
          (k : ℕ) (p : Pool)
          → Inv home jobs per_shard p
          → Inv home jobs per_shard (prepared world jobs per_shard k p)
            × (submit jobs per_shard (prepared world jobs per_shard k p) ≡ none)
            × (waiting (prepared world jobs per_shard k p)
                  + in_pool (prepared world jobs per_shard k p)
                ≤ waiting p + in_pool p)
      unfolding prepared
      prepared-Inv k p v = elim (Bool-cases (world.drain k)) [
        | inl e ↦ rw e (
            filled (stopped Stop.signal false p)
              (stopped-Inv home jobs per_shard Stop.signal false p v)
              (omega (arith, stopped-waiting Stop.signal false p)))
        | inr n ↦ rw n (filled p v (omega arith))
      ]
        where
          filled :
              (q : Pool)
              → Inv home jobs per_shard q
              → waiting q + in_pool q ≤ waiting p + in_pool p
              → Inv home jobs per_shard
                  (fill jobs per_shard (suc (length (queued q.stage.queues))) q)
                × (submit jobs per_shard
                      (fill jobs per_shard (suc (length (queued q.stage.queues))) q)
                    ≡ none)
                × (waiting (fill jobs per_shard (suc (length (queued q.stage.queues))) q)
                      + in_pool (fill jobs per_shard (suc (length (queued q.stage.queues))) q)
                    ≤ waiting p + in_pool p)
          filled q u le =
              let f =
                fill-full jobs per_shard (suc (length (queued q.stage.queues))) q
                  (omega (arith, length-weight (queued q.stage.queues))) in
              (fill-Inv (suc (length (queued q.stage.queues))) q u, f.0, omega (arith, f.1, le))
