-- ===== src/Schemas/Pool/Ends.antt =====
-- The end of the parallel loop: what is queued or runs gets less with each turn, and the loop does
-- not leave a target behind.
use mt_shards_back_test.Base.{
  ℕ, suc, zero, ◌+◌, ◌≤◌, ◌<◌, ◌≡◌, refl, Bool, true, false, ◌||◌, Option, some, none, List, [],
  ◌∷◌, inl, inr, arith, Bool-cases, Option-cases, any,
}
use mt_shards_back_test.Schemas.Entries.{Entry, Stop, entry_at, write}
use mt_shards_back_test.Schemas.Queue.{queued}
use mt_shards_back_test.Schemas.Queue.Laws.{weight, weight-popped}
use mt_shards_back_test.Schemas.Stage.{Stage, done}
use mt_shards_back_test.Schemas.Stage.Cuts.{one, weight-emptied, settled-Cuts, shard_of}
use mt_shards_back_test.Schemas.Pool.{
  Pool, Completion, submit, stopped, finish, is_in, removed, fill, receive, received, any_broken,
  is_broken, done_at, collect,
}
use mt_shards_back_test.Schemas.Pool.Invariant.{submit-Handed, handed, weight-removed}

abbrev pub waiting : Pool → ℕ
waiting p = weight one (queued p.stage.queues)

abbrev pub in_pool : Pool → ℕ
in_pool p = weight one p.running

-- A target that is handed over leaves its queue.
pub submit-waiting :
    (jobs per_shard : ℕ) (p q : Pool)
    → submit jobs per_shard p ≡ some q
    → (suc (waiting q) ≡ waiting p) × (in_pool q ≡ suc (in_pool p))
unfolding weight handed
submit-waiting jobs per_shard p q h =
    let s = submit-Handed jobs per_shard p q h in
    rw s.is_next (
      let e = weight-popped one s.shard s.first s.rest p.stage.queues s.front in
      (omega (arith, e), omega arith))

pub stopped-waiting :
    (stop : Stop) (override : Bool) (p : Pool) → waiting (stopped stop override p) ≡ 0
unfolding stopped weight
stopped-waiting stop override p = weight-emptied (λ i. none) one p.stage.queues

done_at-waiting :
    (o : Option Entry) (running : List ℕ) (st : Stage) (es : List Entry)
    → (waiting (done_at o running st es) ≤ weight one (queued st.queues))
      × (in_pool (done_at o running st es) ≡ weight one running)
unfolding done
done_at-waiting none running st es = (omega arith, refl)
done_at-waiting (some e) running st es =
    ((settled-Cuts (λ i. shard_of i es) e.conn_error e.target.shard e.kind _ es).fewer one, refl)

pub finish-waiting :
    (i : ℕ) (c : Completion) (p : Pool)
    → is_in i p.running ≡ true
    → (waiting (finish i c p) ≤ waiting p) × (suc (in_pool (finish i c p)) ≡ in_pool p)
unfolding finish
finish-waiting i c p m =
    let es = write i (collect c) p.entries in
    let d = done_at-waiting (entry_at i es) (removed i p.running) p.stage es in
    (d.0, omega (arith, d.1, weight-removed one i p.running m))

-- With fuel for all that is queued the inner loop stops where nothing more can be handed over.
pub fill-full :
    (jobs per_shard fuel : ℕ) (p : Pool)
    → waiting p < fuel
    → (submit jobs per_shard (fill jobs per_shard fuel p) ≡ none)
      × (waiting (fill jobs per_shard fuel p) + in_pool (fill jobs per_shard fuel p)
          ≡ waiting p + in_pool p)
unfolding fill
fill-full jobs per_shard zero p h = absurd (omega arith)
fill-full jobs per_shard (suc fuel) p h = elim (Option-cases (submit jobs per_shard p)) [
  | inl e ↦ rw (fill, e) (e, refl)
  | inr (q, e) ↦
      let s = submit-waiting jobs per_shard p q e in
      let f = fill-full jobs per_shard fuel q (omega (arith, s)) in
      rw (fill, e) (f.0, omega (arith, f.1, s))
]

-- A wait that does not time out finds a future of the dict done, or the pool broken.
abbrev pub finds : List ℕ → List (ℕ × Completion) → Bool
finds running found = any (λ x. is_broken x.1 || is_in x.0 running) found

received-waiting :
    (x : ℕ × Completion) (p : Pool)
    → (waiting (received x p) ≤ waiting p) × (in_pool (received x p) ≤ in_pool p)
unfolding received
received-waiting (i, c) p = elim (Bool-cases (is_broken c)) [
  | inl e ↦ rw e (omega arith, omega arith)
  | inr n ↦ rw n (elim (Bool-cases (is_in i p.running)) [
    | inl m ↦ rw m (let f = finish-waiting i c p m in (f.0, omega (arith, f.1)))
    | inr m ↦ rw m (omega arith, omega arith)
  ])
]

pub receive-waiting :
    (xs : List (ℕ × Completion)) (p : Pool)
    → (waiting (receive xs p) ≤ waiting p) × (in_pool (receive xs p) ≤ in_pool p)
unfolding receive
receive-waiting [] p = (omega arith, omega arith)
receive-waiting (x ∷ xs) p =
    let (a, b) = receive-waiting xs (received x p) in
    let (c, d) = received-waiting x p in (omega (arith, a, c), omega (arith, b, d))

received-less :
    (i : ℕ) (c : Completion) (p : Pool)
    → is_broken c ≡ false
    → is_in i p.running ≡ true
    → suc (in_pool (received (i, c) p)) ≡ in_pool p
unfolding received
received-less i c p n m = rw (n, m) (finish-waiting i c p m).1

received-other :
    (i : ℕ) (c : Completion) (p : Pool) → is_in i p.running ≡ false → received (i, c) p ≡ p
unfolding received
received-other i c p m = ground (arith, m)

pub receive-less :
    (xs : List (ℕ × Completion)) (p : Pool)
    → any_broken xs ≡ false
    → finds p.running xs ≡ true
    → in_pool (receive xs p) < in_pool p
unfolding receive any_broken any
receive-less [] p b f = absurd (ground arith)
receive-less ((i, c) ∷ xs) p b f = elim (Bool-cases (is_in i p.running)) [
  | inl m ↦
      omega (arith, received-less i c p (ground arith) m, receive-waiting xs (received (i, c) p))
  | inr m ↦ rw (receive, received-other i c p m) (receive-less xs p (ground arith) (ground arith))
]

-- A wait that timed out changes nothing.
pub receive_nothing :
    (xs : List (ℕ × Completion)) (p : Pool)
    → finds p.running xs ≡ false
    → (receive xs p ≡ p) × (any_broken xs ≡ false)
unfolding receive any_broken any
receive_nothing [] p f = (refl, refl)
receive_nothing ((i, c) ∷ xs) p f =
    let (a, b) = receive_nothing xs p (ground (arith, f)) in
    (rw (received-other i c p (ground (arith, f))) a, ground (arith, b, f))
