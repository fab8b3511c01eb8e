-- ===== src/Schemas/Pool/Trace.antt =====
-- The parallel loop as a sequence of steps.
use mt_shards_back_test.Base.{
  ℕ, suc, zero, ◌≡◌, refl, ap, sym, ◌∙◌, true, false, Option, some, none, List, [], ◌∷◌, ◌⊎◌, inl,
  inr, arith, length, Bool-cases, Option-cases, is_some,
}
use mathlib.Core.Path.{subst}
use mt_shards_back_test.Schemas.Entries.{Stop}
use mt_shards_back_test.Schemas.Queue.{queued}
use mt_shards_back_test.Schemas.Pool.{
  Pool, World, Completion, Turn, submit, stopped, is_in, fill, receive, received, any_broken,
  is_broken, prepared, turn, waited, run_parallel,
}
use mt_shards_back_test.Schemas.Pool.Invariant.{List-cases}
use mt_shards_back_test.Schemas.Pool.Reach.{Reach, later, hands, takes, halts}
use mt_shards_back_test.Schemas.Pool.Turns.{cut_off-stop}

pub some_inj : {x y : Pool} → some x ≡ some y → x ≡ y
some_inj {x} h = ap (λ o. unwrapped o) h
  where
    unwrapped : Option Pool → Pool
    unwrapped none = x
    unwrapped (some y) = y

module _ (jobs per_shard : ℕ) (s : Pool) where
  fill-Reach :
      (fuel : ℕ) (p : Pool)
      → Reach jobs per_shard s p
      → Reach jobs per_shard s (fill jobs per_shard fuel p)
  unfolding fill
  fill-Reach zero p r = r
  fill-Reach (suc fuel) p r = elim (Option-cases (submit jobs per_shard p)) [
    | inl e ↦ rw (fill, e) r
    | inr (q, e) ↦ rw (fill, e) (fill-Reach fuel q (later r (hands e)))
  ]

  received-Reach :
      (x : ℕ × Completion) (p : Pool)
      → Reach jobs per_shard s p
      → Reach jobs per_shard s (received x p)
  unfolding received
  received-Reach (i, c) p r = elim (Bool-cases (is_broken c)) [
    | inl e ↦ rw e r
    | inr n ↦ rw n (elim (Bool-cases (is_in i p.running)) [
      | inl m ↦ rw m (later r (takes i c m n))
      | inr m ↦ rw m r
    ])
  ]

  receive-Reach :
      (xs : List (ℕ × Completion)) (p : Pool)
      → Reach jobs per_shard s p
      → Reach jobs per_shard s (receive xs p)
  unfolding receive
  receive-Reach [] p r = r
  receive-Reach (x ∷ xs) p r = receive-Reach xs (received x p) (received-Reach x p r)

  module _ (world : World) where
    prepared-Reach :
        (k : ℕ) (p : Pool)
        → Reach jobs per_shard s p
        → Reach jobs per_shard s (prepared world jobs per_shard k p)
    unfolding prepared
    prepared-Reach k p r = elim (Bool-cases (world.drain k)) [
      | inl e ↦ rw e (
          fill-Reach (suc (length (queued (stopped Stop.signal false p).stage.queues)))
            (stopped Stop.signal false p) (later r (halts Stop.signal false)))
      | inr n ↦ rw n (fill-Reach (suc (length (queued p.stage.queues))) p r)
    ]

    -- Where a turn leads: a reached state, at its end or before the next, or a stop.
    abbrev Leads : Turn → Type 0
    Leads (Turn.ended q) = Reach jobs per_shard s q
    Leads (Turn.again q) = Reach jobs per_shard s q
    Leads (Turn.broke q) = is_some q.stage.stop ≡ true

    waited-Leads : (k : ℕ) (p : Pool) → Reach jobs per_shard s p → Leads (waited world k p)
    waited-Leads k p r =
        let found = world.wait k p.running in
        elim (Bool-cases (any_broken found)) [
          | inl b ↦ rw b (cut_off-stop world k (receive found p))
          | inr n ↦ rw n (receive-Reach found p r)
        ]

    turn-Leads :
        (k : ℕ) (p : Pool) → Reach jobs per_shard s p → Leads (turn world jobs per_shard k p)
    unfolding turn
    turn-Leads k p r =
        let q = prepared world jobs per_shard k p in
        elim (List-cases q.running) [
          | inl e ↦ rw e (prepared-Reach k p r)
          | inr (i, is, e) ↦ rw e (waited-Leads k q (prepared-Reach k p r))
        ]

    pub run_parallel-Reach :
        (fuel k : ℕ) (p q : Pool)
        → Reach jobs per_shard s p
        → run_parallel world jobs per_shard fuel k p ≡ some q
        → Reach jobs per_shard s q ⊎ (is_some q.stage.stop ≡ true)
    unfolding run_parallel
    run_parallel-Reach zero k p q r h = absurd (ground arith)
    run_parallel-Reach (suc fuel) k p q r h =
        go (turn world jobs per_shard k p) refl (turn-Leads k p r)
          (λ x. run_parallel-Reach fuel (suc k) x q)
      where
        go :
            (t : Turn)
            → turn world jobs per_shard k p ≡ t
            → Leads t
            → ((x : Pool)
                → Reach jobs per_shard s x
                → run_parallel world jobs per_shard fuel (suc k) x ≡ some q
                → Reach jobs per_shard s q ⊎ (is_some q.stage.stop ≡ true))
            → Reach jobs per_shard s q ⊎ (is_some q.stage.stop ≡ true)
        go (Turn.ended x) e l rest =
            let same : some x ≡ some q = sym (rw (run_parallel, e) refl) ∙ h in
            inl (subst (Reach jobs per_shard s) (some_inj same) l)
        go (Turn.broke x) e l rest =
            let same : some x ≡ some q = sym (rw (run_parallel, e) refl) ∙ h in
            inr (subst (λ y. is_some y.stage.stop ≡ true) (some_inj same) l)
        go (Turn.again x) e l rest =
            let same : run_parallel world jobs per_shard fuel (suc k) x ≡ some q =
              sym (rw (run_parallel, e) refl) ∙ h in
            rest x l same
