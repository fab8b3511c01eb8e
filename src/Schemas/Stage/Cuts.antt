-- ===== src/Schemas/Stage/Cuts.antt =====
-- What halt and done leave as it is: the counts in flight and the shard of each entry. Of the
-- queues they only take away.
use mt_shards_back_test.Base.{
  ℕ, suc, zero, ◌≤◌, ◌≡◌, refl, ap, ◌∙◌, Bool, true, false, not, ◌||◌, inl, inr, List, [], ◌∷◌, map,
  Option, none, some, Text, Bool-cases, arith, leb, is_some,
}
use mt_shards_back_test.Migrator.Run.Result.{Side}
use mt_shards_back_test.Schemas.Entries.{
  Entry, EntryKind, EntryReason, Stop, put, write_all, write, entry_at, succeeded, is_failed,
}
use mt_shards_back_test.Schemas.Queue.{keys, Counter, Queues, queue, queued, tally, set_tally}
use mt_shards_back_test.Schemas.Queue.Laws.{
  keys-set_queue, weight, weight-cleared, AllQueues, AllQueues-set_queue,
}
use mt_shards_back_test.Schemas.Stage.{
  Stage, halt, unreachable, counted, stop_on_failure, settled, remaining,
}

abbrev pub shard_in : Option Entry → Option Text
shard_in none = none
shard_in (some e) = some e.target.shard

unfoldable pub shard_of : ℕ → List Entry → Option Text
unfolding entry_at
shard_of i es = shard_in (entry_at i es)

-- A write that leaves the target alone.
pub shard_of-write :
    (f : Entry → Entry)
    → ((e : Entry) → (f e).target ≡ e.target)
    → (j i : ℕ) (es : List Entry) → shard_of j (write i f es) ≡ shard_of j es
unfolding shard_of write
shard_of-write f same j i [] = refl
shard_of-write f same zero zero (e ∷ es) = ap (λ t. some t.shard) (same e)
shard_of-write f same (suc j) zero (e ∷ es) = refl
shard_of-write f same zero (suc i) (e ∷ es) = refl
shard_of-write f same (suc j) (suc i) (e ∷ es) = shard_of-write f same j i es

pub shard_of-write_all :
    (f : Entry → Entry)
    → ((e : Entry) → (f e).target ≡ e.target)
    → (j : ℕ) (is : List ℕ) (es : List Entry) → shard_of j (write_all is f es) ≡ shard_of j es
unfolding write_all
shard_of-write_all f same j [] es = refl
shard_of-write_all f same j (i ∷ is) es =
    shard_of-write_all f same j is (write i f es) ∙ shard_of-write f same j i es

abbrev pub one : ℕ → ℕ
one i = 1

abbrev pub good_in : Option Entry → Bool
good_in none = false
good_in (some e) = succeeded e.kind

-- Whether the entry at an address is ok or noop.
unfoldable pub good : ℕ → List Entry → Bool
unfolding entry_at
good i es = good_in (entry_at i es)

pub good-write :
    (f : Entry → Entry)
    → ((e : Entry) → succeeded (f e).kind ≡ false)
    → (j i : ℕ) (es : List Entry) → good j (write i f es) ≡ true
    → good j es ≡ true
unfolding good write
good-write f bad j i [] h = h
good-write f bad zero zero (e ∷ es) h = absurd (ground (arith, bad e))
good-write f bad (suc j) zero (e ∷ es) h = h
good-write f bad zero (suc i) (e ∷ es) h = h
good-write f bad (suc j) (suc i) (e ∷ es) h = good-write f bad j i es h

good-write_all :
    (f : Entry → Entry)
    → ((e : Entry) → succeeded (f e).kind ≡ false)
    → (j : ℕ) (is : List ℕ) (es : List Entry) → good j (write_all is f es) ≡ true
    → good j es ≡ true
unfolding write_all
good-write_all f bad j [] es h = h
good-write_all f bad j (i ∷ is) es h =
    good-write f bad j i es (good-write_all f bad j is (write i f es) h)

-- A stage that has stopped has nothing queued.
abbrev pub IsDrained : Stage → Type 0
IsDrained st = is_some st.stop ≡ true → weight one (queued st.queues) ≡ 0

module _ (home : ℕ → Option Text) where
  abbrev pub Known : Queues → Type 0
  Known = AllQueues (λ s i. home i ≡ some s)

  pub record Cuts (st : Stage) (es : List Entry) (after : Stage × List Entry) : Type 0 where
    pub flight : after.0.inflight ≡ st.inflight
    pub going : after.0.keep_going ≡ st.keep_going
    pub cap : after.0.max_failures ≡ st.max_failures
    pub fewer : (w : ℕ → ℕ) → weight w (queued after.0.queues) ≤ weight w (queued st.queues)
    pub known : Known st.queues → Known after.0.queues
    pub named : keys after.0.queues ≡ keys st.queues
    pub shards : (i : ℕ) → shard_of i after.1 ≡ shard_of i es
    pub goods : (i : ℕ) → good i after.1 ≡ true → good i es ≡ true
    pub drained : IsDrained st → IsDrained after.0

  Cuts-refl : (st : Stage) (es : List Entry) → Cuts st es (st, es)
  Cuts-refl st es = record {
    flight = refl;
    going = refl;
    cap = refl;
    fewer = λ w. omega arith;
    known = λ k. k;
    named = refl;
    shards = λ i. refl;
    goods = λ i h. h;
    drained = λ d. d;
  }

  pub Cuts-trans :
      (st st' : Stage) (es es' : List Entry) (after : Stage × List Entry)
      → Cuts st es (st', es')
      → Cuts st' es' after
      → Cuts st es after
  Cuts-trans st st' es es' after c d = record {
    flight = d.flight ∙ c.flight;
    going = d.going ∙ c.going;
    cap = d.cap ∙ c.cap;
    fewer = λ w. omega (arith, c.fewer w, d.fewer w);
    known = λ k. d.known (c.known k);
    named = d.named ∙ c.named;
    shards = λ i. d.shards i ∙ c.shards i;
    goods = λ i h. c.goods i (d.goods i h);
    drained = λ k. d.drained (c.drained k);
  }

  pub weight-emptied : (w : ℕ → ℕ) (qs : Queues) → weight w (queued (map (λ q. (q.0, [])) qs)) ≡ 0
  unfolding weight queued
  weight-emptied w [] = refl
  weight-emptied w (q ∷ qs) = weight-emptied w qs

  Known-emptied : (qs : Queues) → Known (map (λ q. (q.0, [])) qs)
  Known-emptied [] = tt
  Known-emptied (q ∷ qs) = (tt, Known-emptied qs)

  keys-emptied : (qs : Queues) → keys (map (λ q. (q.0, [])) qs) ≡ keys qs
  keys-emptied [] = refl
  keys-emptied (q ∷ qs) = ap (λ ks. q.0 ∷ ks) (keys-emptied qs)

  pub halt-Cuts :
      (stop : Stop) (override : Bool) (st : Stage) (es : List Entry)
      → Cuts st es (halt stop override st es)
  unfolding halt
  halt-Cuts stop override st es = record {
    flight = refl;
    going = refl;
    cap = refl;
    fewer = λ w. omega (arith, weight-emptied w st.queues);
    known = λ k. Known-emptied st.queues;
    named = keys-emptied st.queues;
    shards = λ i.
        shard_of-write_all (put EntryKind.not_run EntryReason.stopped) (λ e. refl) i
          (queued st.queues) es;
    goods = λ i.
        good-write_all (put EntryKind.not_run EntryReason.stopped) (λ e. refl) i (queued st.queues)
          es;
    drained = λ d h. weight-emptied one st.queues;
  }

  pub unreachable-Cuts :
      (shard : Text) (st : Stage) (es : List Entry) → Cuts st es (unreachable shard st es)
  unreachable-Cuts shard st es = record {
    flight = refl;
    going = refl;
    cap = refl;
    fewer = λ w. omega (arith, weight-cleared w shard st.queues);
    known = λ k. AllQueues-set_queue (λ s i. home i ≡ some s) shard [] st.queues k tt;
    named = keys-set_queue shard [] st.queues;
    shards = λ i.
        shard_of-write_all (put EntryKind.not_run EntryReason.shard_unreachable) (λ e. refl) i
          (queue shard st.queues) es;
    goods = λ i.
        good-write_all (put EntryKind.not_run EntryReason.shard_unreachable) (λ e. refl) i
          (queue shard st.queues) es;
    drained = λ d h. omega (arith, d h, weight-cleared one shard st.queues);
  }

  consecutive-Cuts :
      (c : Counter) (st : Stage) (es : List Entry) → Cuts st es (record st { consecutive = c }, es)
  consecutive-Cuts c st es = record {
    flight = refl;
    going = refl;
    cap = refl;
    fewer = λ w. omega arith;
    known = λ k. k;
    named = refl;
    shards = λ i. refl;
    goods = λ i h. h;
    drained = λ d. d;
  }

  pub counted-Cuts :
      (shard : Text) (k : EntryKind) (st : Stage) (es : List Entry)
      → Cuts st es (counted shard k st, es)
  counted-Cuts shard EntryKind.failed st es =
      consecutive-Cuts (set_tally shard (suc (tally shard st.consecutive)) st.consecutive) st es
  counted-Cuts shard EntryKind.ok st es = consecutive-Cuts (set_tally shard 0 st.consecutive) st es
  counted-Cuts shard EntryKind.noop st es =
      consecutive-Cuts (set_tally shard 0 st.consecutive) st es
  counted-Cuts shard EntryKind.skipped st es = Cuts-refl st es
  counted-Cuts shard EntryKind.not_run st es = Cuts-refl st es
  counted-Cuts shard EntryKind.interrupted st es = Cuts-refl st es
  counted-Cuts shard EntryKind.running st es = Cuts-refl st es

  stop_on_failure-Cuts :
      (shard : Text) (k : EntryKind) (st : Stage) (es : List Entry)
      → Cuts st es (stop_on_failure shard k st es)
  unfolding stop_on_failure
  stop_on_failure-Cuts shard k st es = elim (Bool-cases (not (is_failed k) || is_some st.stop)) [
    | inl e ↦ rw e (Cuts-refl st es)
    | inr n ↦ rw n (elim (Bool-cases (not st.keep_going)) [
      | inl g ↦ rw g (elim (Bool-cases (remaining st)) [
        | inl m ↦ rw m (halt-Cuts Stop.fail_fast false st es)
        | inr m ↦ rw m (Cuts-refl st es)
      ])
      | inr g ↦ rw g (elim (Bool-cases (leb st.max_failures (tally shard st.consecutive))) [
        | inl m ↦ rw m (halt-Cuts (Stop.max_failures shard) false st es)
        | inr m ↦ rw m (Cuts-refl st es)
      ])
    ])
  ]

  pub settled-Cuts :
      (side : Option Side) (shard : Text) (k : EntryKind) (st : Stage) (es : List Entry)
      → Cuts st es (settled side shard k st es)
  unfolding stop_on_failure
  settled-Cuts (some Side.default) shard k st es = halt-Cuts Stop.default_unreachable false st es
  settled-Cuts (some Side.shard) shard k st es =
      Cuts-trans st _ es _ _ (unreachable-Cuts shard st es) (stop_on_failure-Cuts shard k _ _)
  settled-Cuts none shard k st es =
      Cuts-trans st _ es es _ (counted-Cuts shard k st es) (stop_on_failure-Cuts shard k _ es)
