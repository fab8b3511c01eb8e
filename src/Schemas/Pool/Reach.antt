-- ===== src/Schemas/Pool/Reach.antt =====
-- The states of the parallel loop, whatever order its futures end in, and what holds of them all.
use mt_shards_back_test.Base.{
  ℕ, suc, ◌+◌, ◌≤◌, ◌≡◌, refl, ap, ◌∙◌, Bool, true, false, Option, some, List, [], ◌∷◌, ◌++◌, Text,
  arith, length, leb, if◌then◌else◌,
}
use mathlib.Core.Path.{subst}
use mt_shards_back_test.Schemas.Entries.{Entry, Stop, entry_at}
use mt_shards_back_test.Schemas.Queue.{tally, total, Queues, keys, queued, append_to}
use mt_shards_back_test.Schemas.Queue.Laws.{weight, length-weight, AllQueues}
use mt_shards_back_test.Schemas.Queue.Distinct.{
  Distinct, Distinct-append_to, weight-append_to, AllQueues-append_to,
}
use mt_shards_back_test.Schemas.Stage.{stage_of, queued_from}
use mt_shards_back_test.Schemas.Stage.Cuts.{shard_of, one}
use mt_shards_back_test.Schemas.Pool.{Pool, Completion, submit, stopped, finish, is_in, is_broken}
use mt_shards_back_test.Schemas.Pool.Invariant.{
  Inv, is_at, is_shard, submit-Inv, finish-Inv, stopped-Inv,
}

-- The parent hands a target to the pool, takes what a future of its dict came to, a Result or an
-- exception of the work, or halts.
pub data Step (jobs per_shard : ℕ) : Pool → Pool → Type 0 where
  hands : {p q : Pool} → submit jobs per_shard p ≡ some q → Step jobs per_shard p q
  takes :
      {p : Pool} (i : ℕ) (c : Completion)
      → is_in i p.running ≡ true
      → is_broken c ≡ false
      → Step jobs per_shard p (finish i c p)
  halts :
      {p : Pool} (stop : Stop) (override : Bool) → Step jobs per_shard p (stopped stop override p)

pub data Reach (jobs per_shard : ℕ) (s : Pool) : Pool → Type 0 where
  here : Reach jobs per_shard s s
  later :
      {p q : Pool} → Reach jobs per_shard s p → Step jobs per_shard p q → Reach jobs per_shard s q

-- The tenant stage of a run whose entries so far are `front`.
unfoldable pub opened : List Entry → List Entry → Bool → ℕ → Pool
unfolding stage_of
opened front es keep_going max_failures = record {
  stage = stage_of (length front) es keep_going max_failures;
  entries = front ++ es;
  running = [];
}

pub shard_of-append :
    (front es : List Entry) (k : ℕ) → shard_of (length front + k) (front ++ es) ≡ shard_of k es
unfolding shard_of entry_at
shard_of-append [] es k = let e : 0 + k ≡ k = omega arith in ap (λ n. shard_of n es) e
shard_of-append (x ∷ front) es k =
    let e : suc (length front) + k ≡ suc (length front + k) = omega arith in
    ap (λ n. shard_of n (x ∷ (front ++ es))) e ∙ shard_of-append front es k

abbrev at_most : ℕ → ℕ → ℕ
at_most i a = if leb i a then 1 else 0

weight-ext : (v w : ℕ → ℕ) (is : List ℕ) → ((i : ℕ) → v i ≡ w i) → weight v is ≡ weight w is
unfolding weight
weight-ext v w [] h = refl
weight-ext v w (i ∷ is) h = omega (arith, h i, weight-ext v w is h)

module _ (home : ℕ → Option Text) where
  -- What is queued has its key for a shard, each address at most once, and the keys are distinct.
  record Queued (i : ℕ) (qs : Queues) : Type 0 where
    known : AllQueues (λ s j. home j ≡ some s) qs
    once : (a : ℕ) → weight (is_at a) (queued qs) + at_most i a ≤ 1
    distinct : Distinct (keys qs)

  Queued-append_to :
      (s : Text) (i : ℕ) (qs : Queues)
      → Queued i qs
      → home i ≡ some s
      → Queued (suc i) (append_to s i qs)
  Queued-append_to s i qs q h = record {
    known = AllQueues-append_to (λ t j. home j ≡ some t) s i qs q.known h;
    once = λ a. ground (arith, q.once a, weight-append_to (is_at a) s i qs);
    distinct = Distinct-append_to s i qs q.distinct;
  }

  Queued-queued_from :
      (i : ℕ) (es : List Entry) (qs : Queues)
      → Queued i qs
      → ((k : ℕ) → home (i + k) ≡ shard_of k es)
      → Queued (i + length es) (queued_from i es qs)
  unfolding queued_from shard_of entry_at
  Queued-queued_from i [] qs q h = let e : i ≡ i + 0 = omega arith in subst (λ n. Queued n qs) e q
  Queued-queued_from i (x ∷ es) qs q h =
      let e : suc i + length es ≡ i + suc (length es) = omega arith in
      let z : i ≡ i + 0 = omega arith in
      subst (λ n. Queued n (queued_from (suc i) es (append_to x.target.shard i qs))) e
        (Queued-queued_from (suc i) es (append_to x.target.shard i qs)
          (Queued-append_to x.target.shard i qs q (ap home z ∙ h 0))
          (λ k. let s : suc i + k ≡ i + suc k = omega arith in ap home s ∙ h (suc k)))

pub queued-queued_from :
    (i : ℕ) (es : List Entry) (qs : Queues)
    → weight one (queued (queued_from i es qs)) ≡ weight one (queued qs) + length es
unfolding queued_from
queued-queued_from i [] qs = omega arith
queued-queued_from i (x ∷ es) qs = omega (
  arith,
  queued-queued_from (suc i) es (append_to x.target.shard i qs),
  weight-append_to one x.target.shard i qs,
)

-- How many of the running entries are on a shard.
abbrev pub running_on : Text → Pool → ℕ
running_on shard p = weight (λ i. is_shard shard (shard_of i p.entries)) p.running

module _ (front es : List Entry) (keep_going : Bool) (max_failures : ℕ) (jobs per_shard : ℕ) where
  abbrev home : ℕ → Option Text
  home i = shard_of i (front ++ es)

  pub opened-Inv : Inv home jobs per_shard (opened front es keep_going max_failures)
  unfolding opened stage_of weight tally total queued
  opened-Inv =
      let q =
        Queued-queued_from home (length front) es []
          (record { known = tt; once = λ a. ground arith; distinct = tt })
          (shard_of-append front es) in
      record {
        homes = λ i. refl;
        known = q.known;
        placed = tt;
        tallied = λ s. refl;
        summed = refl;
        fits = omega arith;
        room = λ s. omega arith;
        once = λ a. omega (arith, q.once a);
        drained = λ d. absurd (ground arith);
        distinct = q.distinct;
      }

  Step-Inv :
      {p q : Pool} → Step jobs per_shard p q → Inv home jobs per_shard p → Inv home jobs per_shard q
  Step-Inv (hands h) v = submit-Inv home jobs per_shard _ _ v h
  Step-Inv (takes i c m n) v = finish-Inv home jobs per_shard i c _ v m
  Step-Inv (halts stop override) v = stopped-Inv home jobs per_shard stop override _ v

  pub Reach-Inv :
      {p : Pool}
      → Reach jobs per_shard (opened front es keep_going max_failures) p
      → Inv home jobs per_shard p
  Reach-Inv here = opened-Inv
  Reach-Inv (later r s) = Step-Inv s (Reach-Inv r)

  -- However the futures end and whenever the run is stopped, at most `jobs` targets run at a time,
  -- at most `per_shard` of them on one shard, and each entry is queued or runs at most once.
  pub Reach-bounds :
      {p : Pool}
      → Reach jobs per_shard (opened front es keep_going max_failures) p
      → (shard : Text) (address : ℕ)
      → (length p.running ≤ jobs)
        × (running_on shard p ≤ per_shard)
        × (weight (is_at address) (queued p.stage.queues) + weight (is_at address) p.running ≤ 1)
  Reach-bounds {p} r shard address =
      let v = Reach-Inv r in
      let on =
        weight-ext (λ i. is_shard shard (shard_of i p.entries)) (λ i. is_shard shard (home i))
          p.running (λ i. ap (is_shard shard) (v.homes i)) in
      (
        omega (arith, v.fits, length-weight p.running),
        omega (arith, v.room shard, v.tallied shard, on),
        v.once address,
      )
