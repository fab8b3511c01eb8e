-- ===== src/Schemas/Pool/Invariant.antt =====
-- The invariant of the parallel loop, over the shards of the entries, which no operation changes:
-- what the counts in flight and the queues have to do with the dict of running futures.
use mt_shards_back_test.Base.{
  ℕ, suc, ◌+◌, ◌-◌, ◌≤◌, ◌<◌, ◌≡◌, refl, ap, ◌∙◌, sym, Bool, true, false, ◌⊎◌, inl, inr, List, [],
  ◌∷◌, Option, none, some, Text, text_eq, text_eq_refl, text_eq_iff, Bool-cases, Option-cases,
  if◌then◌else◌, arith, All, is_some, ◌==◌,
}
use mathlib.Core.Path.{subst}
use mt_shards_back_test.Schemas.Entries.{Entry, EntryKind, Stop, take, write, entry_at}
use mt_shards_back_test.Schemas.Queue.{
  keys, queue, queued, set_queue, tally, total, set_tally, pick_next,
}
use mt_shards_back_test.Schemas.Queue.Laws.{
  keys-set_queue, weight, weight-popped, AllQueues-queue, AllQueues-set_queue, total-set_tally,
  tally-set_tally,
}
use mt_shards_back_test.Schemas.Queue.Distinct.{Distinct}
use mt_shards_back_test.Schemas.Queue.Pick.{pick_next-some}
use mt_shards_back_test.Schemas.Stage.{Stage, next, done}
use mt_shards_back_test.Schemas.Stage.Cuts.{
  shard_of, shard_in, shard_of-write, one, IsDrained, Known, Cuts, halt-Cuts, settled-Cuts,
}
use mt_shards_back_test.Schemas.Pool.{
  Pool, Completion, submit, stopped, finish, collect, is_in, removed, with_stage,
}

abbrev pub is_at : ℕ → ℕ → ℕ
is_at a i = if a == i then 1 else 0

abbrev pub is_shard : Text → Option Text → ℕ
is_shard s none = 0
is_shard s (some t) = if text_eq s t then 1 else 0

module _ (w : ℕ → ℕ) where
  pub weight-removed :
      (i : ℕ) (is : List ℕ) → is_in i is ≡ true → weight w (removed i is) + w i ≡ weight w is
  unfolding weight removed is_in
  weight-removed i [] h = ground arith
  weight-removed i (j ∷ js) h = ground (arith, weight-removed i js)

All-removed : (P : ℕ → Type 0) (i : ℕ) (is : List ℕ) → All P is → All P (removed i is)
unfolding removed
All-removed P i [] h = tt
All-removed P i (j ∷ js) h = elim (Bool-cases (i == j)) [
  | inl e ↦ rw e h.1
  | inr n ↦ rw n (h.0, All-removed P i js h.1)
]

All-is_in : (P : ℕ → Type 0) (i : ℕ) (is : List ℕ) → All P is → is_in i is ≡ true → P i
unfolding is_in
All-is_in P i [] h m = absurd (ground arith)
All-is_in P i (j ∷ js) h m = elim (Bool-cases (i == j)) [
  | inl e ↦ let same : i ≡ j = ground arith in rw same h.0
  | inr n ↦ All-is_in P i js h.1 (ground arith)
]

collect-target : (c : Completion) (e : Entry) → (collect c e).target ≡ e.target
unfolding collect take
collect-target (Completion.returned res) e = refl
collect-target Completion.raised e = refl
collect-target Completion.pool_broken e = refl

shard_of-entry :
    (i : ℕ) (es : List Entry) (o : Option Entry) → entry_at i es ≡ o → shard_of i es ≡ shard_in o
unfolding shard_of
shard_of-entry i es o h = ap shard_in h

unfoldable pub handed : Text → ℕ → List ℕ → Pool → Pool
unfolding tally set_tally set_queue write
handed shard i rest p = record {
  stage = record p.stage {
    last = some shard;
    inflight = set_tally shard (suc (tally shard p.stage.inflight)) p.stage.inflight;
    queues = set_queue shard rest p.stage.queues;
  };
  entries = write i (λ e. record e { kind = EntryKind.running }) p.entries;
  running = i ∷ p.running;
}

-- A target that is handed over was the first of the queue of the shard that was picked.
pub record Handed (jobs per_shard : ℕ) (p q : Pool) : Type 0 where
  pub shard : Text
  pub first : ℕ
  pub rest : List ℕ
  pub live : is_some p.stage.stop ≡ false
  pub pick : pick_next p.stage.queues p.stage.inflight jobs per_shard p.stage.last ≡ some shard
  pub front : queue shard p.stage.queues ≡ first ∷ rest
  pub is_next : q ≡ handed shard first rest p

pub List-cases : (xs : List ℕ) → (xs ≡ []) ⊎ ((x : ℕ) × (ys : List ℕ) × (xs ≡ x ∷ ys))
List-cases [] = inl refl
List-cases (x ∷ xs) = inr (x, xs, refl)

pub submit-Handed :
    (jobs per_shard : ℕ) (p q : Pool) → submit jobs per_shard p ≡ some q → Handed jobs per_shard p q
unfolding submit next handed
submit-Handed jobs per_shard p q h = elim (Bool-cases (is_some p.stage.stop)) [
  | inl e ↦ absurd (ground arith)
  | inr n ↦
      elim (Option-cases (pick_next p.stage.queues p.stage.inflight jobs per_shard p.stage.last)) [
        | inl e ↦ absurd (ground arith)
        | inr (shard, e) ↦ elim (List-cases (queue shard p.stage.queues)) [
          | inl m ↦ absurd (ground arith)
          | inr (i, rest, m) ↦ record {
            shard = shard;
            first = i;
            rest = rest;
            live = n;
            pick = e;
            front = m;
            is_next = ground arith;
          }
        ]
      ]
]

module _ (home : ℕ → Option Text) (jobs per_shard : ℕ) where
  pub record Inv (p : Pool) : Type 0 where
    pub homes : (i : ℕ) → shard_of i p.entries ≡ home i
    pub known : Known home p.stage.queues
    pub placed : All (λ i. is_some (home i) ≡ true) p.running
    pub tallied :
        (s : Text) → tally s p.stage.inflight ≡ weight (λ i. is_shard s (home i)) p.running
    pub summed : total p.stage.inflight ≡ weight one p.running
    pub fits : weight one p.running ≤ jobs
    pub room : (s : Text) → tally s p.stage.inflight ≤ per_shard
    pub once : (a : ℕ) → weight (is_at a) (queued p.stage.queues) + weight (is_at a) p.running ≤ 1
    pub drained : IsDrained p.stage
    pub distinct : Distinct (keys p.stage.queues)

  -- What only takes from the queues keeps it.
  Inv-Cuts :
      (p : Pool) (after : Stage × List Entry)
      → Inv p
      → Cuts home p.stage p.entries after
      → Inv (with_stage p.running after)
  Inv-Cuts p after v c = record {
    homes = λ i. c.shards i ∙ v.homes i;
    known = c.known v.known;
    placed = v.placed;
    tallied = λ s. ap (tally s) c.flight ∙ v.tallied s;
    summed = ap total c.flight ∙ v.summed;
    fits = v.fits;
    room = λ s. rw c.flight (v.room s);
    once = λ a. omega (arith, c.fewer (is_at a), v.once a);
    drained = c.drained v.drained;
    distinct = rw c.named v.distinct;
  }

  pub stopped-Inv :
      (stop : Stop) (override : Bool) (p : Pool) → Inv p → Inv (stopped stop override p)
  unfolding stopped
  stopped-Inv stop override p v = Inv-Cuts p _ v (halt-Cuts home stop override p.stage p.entries)

  handed-Inv :
      (shard : Text) (i : ℕ) (rest : List ℕ) (p : Pool)
      → Inv p
      → queue shard p.stage.queues ≡ i ∷ rest
      → total p.stage.inflight < jobs
      → tally shard p.stage.inflight < per_shard
      → is_some p.stage.stop ≡ false
      → Inv (handed shard i rest p)
  unfolding handed weight
  handed-Inv shard i rest p v front below free live =
      let fronts : All (λ j. home j ≡ some shard) (i ∷ rest) =
        subst (All (λ j. home j ≡ some shard)) front
          (AllQueues-queue (λ s j. home j ≡ some s) shard p.stage.queues v.known) in
      record {
        homes = λ j.
            shard_of-write (λ e. record e { kind = EntryKind.running }) (λ e. refl) j i p.entries
            ∙ v.homes j;
        known =
            AllQueues-set_queue (λ s j. home j ≡ some s) shard rest p.stage.queues v.known fronts.1;
        placed = (rw fronts.0 refl, v.placed);
        tallied = λ s.
            tally-set_tally s shard (suc (tally shard p.stage.inflight)) p.stage.inflight
            ∙ rw fronts.0 (ground (arith, v.tallied s, v.tallied shard, text_eq_iff s shard));
        summed = omega (
          arith,
          v.summed,
          total-set_tally shard (suc (tally shard p.stage.inflight)) p.stage.inflight,
        );
        fits = omega (arith, v.summed);
        room = λ s. ground (
          arith,
          v.room s,
          tally-set_tally s shard (suc (tally shard p.stage.inflight)) p.stage.inflight,
        );
        once =
            λ a. omega (arith, v.once a, weight-popped (is_at a) shard i rest p.stage.queues front);
        drained = λ d. absurd (ground arith);
        distinct = rw (keys-set_queue shard rest p.stage.queues) v.distinct;
      }

  pub submit-Inv : (p q : Pool) → Inv p → submit jobs per_shard p ≡ some q → Inv q
  unfolding submit next
  submit-Inv p q v h =
      let s = submit-Handed jobs per_shard p q h in
      let ok =
        pick_next-some p.stage.queues p.stage.inflight jobs per_shard p.stage.last s.shard s.pick in
      rw s.is_next (handed-Inv s.shard s.first s.rest p v s.front ok.0 ok.2 s.live)

  abbrev landed : Text → ℕ → List Entry → Pool → Pool
  unfolding tally set_tally removed
  landed s i es p = record {
    stage = record p.stage {
      inflight = set_tally s (tally s p.stage.inflight - 1) p.stage.inflight;
    };
    entries = es;
    running = removed i p.running;
  }

  landed-Inv :
      (s : Text) (i : ℕ) (es : List Entry) (p : Pool)
      → Inv p
      → is_in i p.running ≡ true
      → home i ≡ some s
      → ((j : ℕ) → shard_of j es ≡ shard_of j p.entries)
      → Inv (landed s i es p)
  unfolding landed
  landed-Inv s i es p v m h same =
      let fewer = λ (w : ℕ → ℕ). weight-removed w i p.running m in
      record {
        homes = λ j. same j ∙ v.homes j;
        known = v.known;
        placed = All-removed (λ j. is_some (home j) ≡ true) i p.running v.placed;
        tallied = λ t.
            tally-set_tally t s (tally s p.stage.inflight - 1) p.stage.inflight
            ∙ ground (
              arith,
              v.tallied t,
              v.tallied s,
              fewer (λ j. is_shard t (home j)),
              text_eq_iff t s,
              text_eq_refl s,
            );
        summed = ground (
          arith,
          v.summed,
          v.tallied s,
          fewer one,
          fewer (λ j. is_shard s (home j)),
          text_eq_refl s,
          total-set_tally s (tally s p.stage.inflight - 1) p.stage.inflight,
        );
        fits = omega (arith, v.fits, fewer one);
        room = λ t. ground (
          arith,
          v.room t,
          v.room s,
          tally-set_tally t s (tally s p.stage.inflight - 1) p.stage.inflight,
        );
        once = λ a. omega (arith, v.once a, fewer (is_at a));
        drained = v.drained;
        distinct = v.distinct;
      }

  pub running-there :
      (i : ℕ) (c : Completion) (p : Pool)
      → Inv p
      → is_in i p.running ≡ true
      → is_some (entry_at i (write i (collect c) p.entries)) ≡ true
  running-there i c p v m =
      let es = write i (collect c) p.entries in
      let there = shard_of-write (collect c) (collect-target c) i i p.entries ∙ v.homes i in
      let placed = All-is_in (λ j. is_some (home j) ≡ true) i p.running v.placed m in
      elim (Option-cases (entry_at i es)) [
        | inl n ↦ absurd (ground (arith, sym there ∙ shard_of-entry i es none n))
        | inr (e, f) ↦ rw f refl
      ]

  pub finish-Inv :
      (i : ℕ) (c : Completion) (p : Pool) → Inv p → is_in i p.running ≡ true → Inv (finish i c p)
  unfolding finish done
  finish-Inv i c p v m =
      let es = write i (collect c) p.entries in
      let same = λ (j : ℕ). shard_of-write (collect c) (collect-target c) j i p.entries in
      let there = same i ∙ v.homes i in
      let found = running-there i c p v m in
      elim (Option-cases (entry_at i es)) [
        | inl n ↦ absurd (ground arith)
        | inr (e, f) ↦ rw f (
            Inv-Cuts (landed e.target.shard i es p) _
              (landed-Inv e.target.shard i es p v m (sym there ∙ shard_of-entry i es (some e) f)
                same)
              (settled-Cuts home e.conn_error e.target.shard e.kind _ es))
      ]
