-- ===== src/Schemas/Pool/Codes.antt =====
-- The exit code of a run, and what its workers returned.
use mt_shards_back_test.Base.{
  ℕ, suc, zero, ◌+◌, ◌<◌, ◌≡◌, refl, ap, ◌∙◌, sym, Bool, true, false, ◌||◌, ◌&&◌, Option, some,
  none, List, [], ◌∷◌, ◌++◌, map, arith, length, ◌==◌, is_some, all, any, ==_iff, Bool-cases,
  Option-cases, inl, inr,
}
use mt_shards_back_test.Schemas.Entries.{
  Entry, EntryKind, Target, Stop, entry, entry_at, write, kind_of, succeeded, take, exit_code,
}
use mt_shards_back_test.Schemas.Queue.{queued}
use mt_shards_back_test.Schemas.Stage.{Stage, done}
use mt_shards_back_test.Schemas.Stage.Cuts.{good, good-write, shard_of, settled-Cuts, halt-Cuts}
use mt_shards_back_test.Schemas.Pool.{
  Pool, World, Completion, submit, stopped, finish, done_at, collect, fill, prepared, removed,
  is_in, is_broken, received, receive,
}
use mt_shards_back_test.Schemas.Pool.Invariant.{submit-Handed, handed}
use mt_shards_back_test.Schemas.Pool.Reach.{Reach, opened, Reach-Inv, shard_of-append}

-- Whether a future returned ok or noop.
abbrev pub worked : Completion → Bool
worked (Completion.returned res) = succeeded (kind_of res.kind)
worked Completion.raised = false
worked Completion.pool_broken = false

good-collect :
    (i j : ℕ) (c : Completion) (es : List Entry)
    → good i (write j (collect c) es) ≡ true
    → ((i == j && worked c) || good i es) ≡ true
unfolding good write collect take
good-collect i j c [] h = absurd (ground arith)
good-collect zero zero (Completion.returned res) (e ∷ es) h = ground (arith, h)
good-collect zero zero Completion.raised (e ∷ es) h = absurd (ground arith)
good-collect zero zero Completion.pool_broken (e ∷ es) h = ground (arith, h)
good-collect (suc i) zero c (e ∷ es) h = ground (arith, h)
good-collect zero (suc j) c (e ∷ es) h = ground (arith, h)
good-collect (suc i) (suc j) c (e ∷ es) h = ground (arith, good-collect i j c es h)

good-done_at :
    (i : ℕ) (o : Option Entry) (running : List ℕ) (st : Stage) (es : List Entry)
    → good i (done_at o running st es).entries ≡ true
    → good i es ≡ true
unfolding done
good-done_at i none running st es h = h
good-done_at i (some e) running st es h =
    (settled-Cuts (λ j. none) e.conn_error e.target.shard e.kind _ es).goods i h

good-submit :
    (i jobs per_shard : ℕ) (p q : Pool)
    → submit jobs per_shard p ≡ some q
    → good i q.entries ≡ true
    → good i p.entries ≡ true
unfolding handed
good-submit i jobs per_shard p q h g =
    let s = submit-Handed jobs per_shard p q h in
    good-write (λ e. record e { kind = EntryKind.running }) (λ e. refl) i s.first p.entries
      (ap (λ x. good i x.entries) (sym s.is_next) ∙ g)

good-fill :
    (i jobs per_shard fuel : ℕ) (p : Pool)
    → good i (fill jobs per_shard fuel p).entries ≡ true
    → good i p.entries ≡ true
unfolding fill
good-fill i jobs per_shard zero p g = g
good-fill i jobs per_shard (suc fuel) p g = elim (Option-cases (submit jobs per_shard p)) [
  | inl e ↦
      let same : fill jobs per_shard (suc fuel) p ≡ p = rw (fill, e) refl in
      ap (λ x. good i x.entries) (sym same) ∙ g
  | inr (q, e) ↦
      let same : fill jobs per_shard (suc fuel) p ≡ fill jobs per_shard fuel q =
        rw (fill, e) refl in
      good-submit i jobs per_shard p q e
        (good-fill i jobs per_shard fuel q (ap (λ x. good i x.entries) (sym same) ∙ g))
]

pub good-prepared :
    (world : World) (i jobs per_shard k : ℕ) (p : Pool)
    → good i (prepared world jobs per_shard k p).entries ≡ true
    → good i p.entries ≡ true
unfolding prepared stopped
good-prepared world i jobs per_shard k p g = elim (Bool-cases (world.drain k)) [
  | inl e ↦
      let q = stopped Stop.signal false p in
      let same : prepared world jobs per_shard k p
          ≡ fill jobs per_shard (suc (length (queued q.stage.queues))) q =
        rw e refl in
      (halt-Cuts (λ j. none) Stop.signal false p.stage p.entries).goods i (
        good-fill i jobs per_shard (suc (length (queued q.stage.queues))) q
          (ap (λ x. good i x.entries) (sym same) ∙ g))
  | inr n ↦
      let same : prepared world jobs per_shard k p
          ≡ fill jobs per_shard (suc (length (queued p.stage.queues))) p =
        rw n refl in
      good-fill i jobs per_shard (suc (length (queued p.stage.queues))) p
        (ap (λ x. good i x.entries) (sym same) ∙ g)
]

-- Whether a wait found a future of the entry at an address that returned ok or noop.
abbrev pub gave : ℕ → List (ℕ × Completion) → Bool
gave i found = any (λ x. i == x.0 && worked x.1) found

is_in-removed : (i j : ℕ) (js : List ℕ) → is_in i (removed j js) ≡ true → is_in i js ≡ true
unfolding is_in removed
is_in-removed i j [] h = h
is_in-removed i j (x ∷ js) h = ground (arith, is_in-removed i j js)

finish-running : (i : ℕ) (c : Completion) (p : Pool) → (finish i c p).running ≡ removed i p.running
unfolding finish done
finish-running i c p = of (entry_at i (write i (collect c) p.entries))
  where
    of :
        (o : Option Entry)
        → (done_at o (removed i p.running) p.stage (write i (collect c) p.entries)).running
          ≡ removed i p.running
    of none = refl
    of (some e) = refl

is_in-received :
    (i : ℕ) (x : ℕ × Completion) (p : Pool)
    → is_in i (received x p).running ≡ true
    → is_in i p.running ≡ true
unfolding received
is_in-received i (j, c) p h = ground (arith, h, finish-running j c p, is_in-removed i j p.running)

good-received :
    (i : ℕ) (x : ℕ × Completion) (p : Pool)
    → good i (received x p).entries ≡ true
    → ((is_in i p.running && (i == x.0 && worked x.1)) || good i p.entries) ≡ true
unfolding received finish
good-received i (j, c) p g = elim (Bool-cases (is_broken c)) [
  | inl e ↦ ground (arith, g, e)
  | inr n ↦ elim (Bool-cases (is_in j p.running)) [
    | inr m ↦ ground (arith, g, n, m)
    | inl m ↦
        let es = write j (collect c) p.entries in
        let at : good i (done_at (entry_at j es) (removed j p.running) p.stage es).entries ≡ true =
          ground (arith, g, n, m) in
        ground (
          arith,
          good-collect i j c p.entries (good-done_at i (entry_at j es) _ p.stage es at),
          m,
          ==_iff i j,
        )
  ]
]

pub good-receive :
    (i : ℕ) (xs : List (ℕ × Completion)) (p : Pool)
    → good i (receive xs p).entries ≡ true
    → ((is_in i p.running && gave i xs) || good i p.entries) ≡ true
unfolding receive any
good-receive i [] p g = ground (arith, g)
good-receive i (x ∷ xs) p g =
    ground (arith, good-receive i xs (received x p) g, is_in-received i x p, good-received i x p)

good-append : (front es : List Entry) (k : ℕ) → good (length front + k) (front ++ es) ≡ good k es
unfolding good entry_at
good-append [] es k = let e : 0 + k ≡ k = omega arith in ap (λ n. good n es) e
good-append (x ∷ front) es k =
    let e : suc (length front) + k ≡ suc (length front + k) = omega arith in
    ap (λ n. good n (x ∷ (front ++ es))) e ∙ good-append front es k

good-fresh : (ts : List Target) (k : ℕ) → good k (map entry ts) ≡ false
unfolding good entry
good-fresh [] k = refl
good-fresh (t ∷ ts) zero = refl
good-fresh (t ∷ ts) (suc k) = good-fresh ts k

shard_of-fresh :
    (ts : List Target) (k : ℕ) → k < length ts → is_some (shard_of k (map entry ts)) ≡ true
unfolding shard_of
shard_of-fresh [] k h = absurd (omega arith)
shard_of-fresh (t ∷ ts) zero h = refl
shard_of-fresh (t ∷ ts) (suc k) h = shard_of-fresh ts k (omega arith)

all-good :
    (es : List Entry) (i : ℕ)
    → all (λ e. succeeded e.kind) es ≡ true
    → is_some (shard_of i es) ≡ true
    → good i es ≡ true
unfolding good shard_of entry_at all
all-good [] i h s = absurd (ground arith)
all-good (e ∷ es) zero h s = ground (arith, h)
all-good (e ∷ es) (suc i) h s = all-good es i (ground (arith, h)) s

-- The entries of a finished tenant stage that give the exit code 0 are all good, and none was at the
-- start.
pub exit_code-good :
    {jobs per_shard : ℕ} (front : List Entry) (ts : List Target) (keep_going : Bool)
    (max_failures : ℕ) {p : Pool}
    → Reach jobs per_shard (opened front (map entry ts) keep_going max_failures) p
    → exit_code p.entries p.stage.stop ≡ 0
    → (k : ℕ) → k < length ts
    → (good (length front + k) p.entries ≡ true)
      × (good (length front + k) (opened front (map entry ts) keep_going max_failures).entries
          ≡ false)
unfolding exit_code opened
exit_code-good {jobs} {per_shard} front ts keep_going max_failures {p} r h k below =
    let v = Reach-Inv front (map entry ts) keep_going max_failures jobs per_shard r in
    let i = length front + k in
    let there = v.homes i ∙ shard_of-append front (map entry ts) k in
    (
      all-good p.entries i (ground (arith, h)) (ap is_some there ∙ shard_of-fresh ts k below),
      good-append front (map entry ts) k ∙ good-fresh ts k,
    )
