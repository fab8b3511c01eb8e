-- ===== src/Schemas/Queue/Distinct.antt =====
-- The keys of a dict of queues are distinct, and the queues that TenantStage.of builds.
use mt_shards_back_test.Base.{
  ℕ, ◌+◌, ◌≡◌, refl, false, ◌||◌, inl, inr, List, [], ◌∷◌, ◌++◌, All, Text, text_eq, text_eq_iff,
  text_eq_refl, Bool-cases, arith, elem,
}
use mt_shards_back_test.Schemas.Queue.{Queues, keys, queue, queued, nonempty, append_to}
use mt_shards_back_test.Schemas.Queue.Laws.{weight, weight-append, AllQueues}
use mt_shards_back_test.Schemas.Queue.Pick.{elem-keys}

abbrev pub Distinct : List Text → Type 0
Distinct [] = Unit {0}
Distinct (t ∷ ts) = (elem t ts ≡ false) × Distinct ts

-- A queue that is not the first is read, since no other has its key.
queue-tail :
    (t : Text) (is : List ℕ) (qs : Queues)
    → elem t (keys qs) ≡ false
    → ((s : Text) → nonempty (queue s ((t, is) ∷ qs)) ≡ false)
    → (s : Text) → nonempty (queue s qs) ≡ false
unfolding queue
queue-tail t is qs d h s = elim (Bool-cases (nonempty (queue s qs))) [
  | inl m ↦ elim (Bool-cases (text_eq s t)) [
    | inl e ↦ absurd (ground (arith, elem-keys s qs m, text_eq_iff s t))
    | inr n ↦ ground (arith, h s)
  ]
  | inr n ↦ n
]

-- Where each queue reads as empty, nothing is queued.
pub queued-empty :
    (w : ℕ → ℕ) (qs : Queues)
    → Distinct (keys qs)
    → ((s : Text) → nonempty (queue s qs) ≡ false)
    → weight w (queued qs) ≡ 0
unfolding weight queued queue
queued-empty w [] d h = refl
queued-empty w ((t, []) ∷ qs) d h = queued-empty w qs d.1 (queue-tail t [] qs d.0 h)
queued-empty w ((t, i ∷ is) ∷ qs) d h = absurd (ground (arith, h t, text_eq_refl t))

elem-append_to :
    (t k : Text) (i : ℕ) (qs : Queues)
    → elem t (keys (append_to k i qs)) ≡ (elem t (keys qs) || text_eq k t)
unfolding elem append_to
elem-append_to t k i [] = ground arith
elem-append_to t k i (q ∷ qs) = elim (Bool-cases (text_eq k q.0)) [
  | inl e ↦ rw (e, (text_eq_iff k q.0).0 e) (ground arith)
  | inr n ↦ rw n (ground (arith, elem-append_to t k i qs))
]

pub Distinct-append_to :
    (k : Text) (i : ℕ) (qs : Queues) → Distinct (keys qs) → Distinct (keys (append_to k i qs))
unfolding append_to elem
Distinct-append_to k i [] d = (refl, tt)
Distinct-append_to k i (q ∷ qs) d = elim (Bool-cases (text_eq k q.0)) [
  | inl e ↦ rw e d
  | inr n ↦ rw n (ground (arith, elem-append_to q.0 k i qs), Distinct-append_to k i qs d.1)
]

pub weight-append_to :
    (w : ℕ → ℕ) (k : Text) (i : ℕ) (qs : Queues)
    → weight w (queued (append_to k i qs)) ≡ weight w (queued qs) + w i
unfolding weight append_to queued
weight-append_to w k i [] = omega arith
weight-append_to w k i (q ∷ qs) = elim (Bool-cases (text_eq k q.0)) [
  | inl e ↦ rw e (
      ground (
        arith,
        weight-append w (q.1 ++ i ∷ []) (queued qs),
        weight-append w q.1 (i ∷ []),
        weight-append w q.1 (queued qs),
      ))
  | inr n ↦ rw n (
      ground (
        arith,
        weight-append_to w k i qs,
        weight-append w q.1 (queued (append_to k i qs)),
        weight-append w q.1 (queued qs),
      ))
]

All-snoc : (P : ℕ → Type 0) (i : ℕ) (xs : List ℕ) → All P xs → P i → All P (xs ++ i ∷ [])
All-snoc P i [] h p = (p, tt)
All-snoc P i (x ∷ xs) h p = (h.0, All-snoc P i xs h.1 p)

pub AllQueues-append_to :
    (P : Text → ℕ → Type 0) (k : Text) (i : ℕ) (qs : Queues)
    → AllQueues P qs
    → P k i
    → AllQueues P (append_to k i qs)
unfolding append_to
AllQueues-append_to P k i [] h p = ((p, tt), tt)
AllQueues-append_to P k i (q ∷ qs) h p = elim (Bool-cases (text_eq k q.0)) [
  | inl e ↦ rw e (All-snoc (P q.0) i q.1 h.0 (rw (← (text_eq_iff k q.0).0 e) p), h.1)
  | inr n ↦ rw n (h.0, AllQueues-append_to P k i qs h.1 p)
]
