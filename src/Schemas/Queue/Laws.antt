-- ===== src/Schemas/Queue/Laws.antt =====
-- pick_next: the Counters, the queues and the weights of the addresses they hold.
use mt_shards_back_test.Base.{
  ℕ, ◌+◌, ◌≡◌, refl, ap, true, inl, inr, List, [], ◌∷◌, ◌++◌, Text, text_eq, text_eq_iff,
  Bool-cases, if◌then◌else◌, arith, length, All,
}
use mt_shards_back_test.Schemas.Queue.{
  Counter, tally, set_tally, total, Queues, keys, queue, set_queue, queued,
}

pub total-set_tally :
    (k : Text) (v : ℕ) (c : Counter) → total (set_tally k v c) + tally k c ≡ total c + v
unfolding total set_tally tally
total-set_tally k v [] = omega arith
total-set_tally k v (c ∷ cs) = ground (arith, total-set_tally k v cs)

text_eq_right : (j k l : Text) → text_eq k l ≡ true → text_eq j l ≡ text_eq j k
text_eq_right j k l h = rw ((text_eq_iff k l).0 h) refl

text_eq_left : (j k l : Text) → text_eq j k ≡ true → text_eq j l ≡ text_eq k l
text_eq_left j k l h = rw ((text_eq_iff j k).0 h) refl

pub tally-set_tally :
    (j k : Text) (v : ℕ) (c : Counter)
    → tally j (set_tally k v c) ≡ (if text_eq j k then v else tally j c)
unfolding set_tally tally
tally-set_tally j k v [] = refl
tally-set_tally j k v (c ∷ cs) = elim (Bool-cases (text_eq k c.0)) [
  | inl e ↦ rw e (ground (arith, text_eq_right j k c.0 e))
  | inr n ↦ rw n (ground (arith, tally-set_tally j k v cs, text_eq_left j k c.0))
]

-- The sum of a weight over addresses: their number, or how often one of them occurs.
module _ (w : ℕ → ℕ) where
  unfoldable pub weight : List ℕ → ℕ
  weight [] = 0
  weight (i ∷ is) = w i + weight is

  pub weight-append : (xs ys : List ℕ) → weight (xs ++ ys) ≡ weight xs + weight ys
  unfolding weight
  weight-append [] ys = omega arith
  weight-append (x ∷ xs) ys = omega (arith, weight-append xs ys)

  -- Taking the first of a queue.
  pub weight-popped :
      (k : Text) (i : ℕ) (rest : List ℕ) (qs : Queues)
      → queue k qs ≡ i ∷ rest
      → weight (queued (set_queue k rest qs)) + w i ≡ weight (queued qs)
  unfolding weight queue set_queue queued
  weight-popped k i rest [] h = cc
  weight-popped k i rest (q ∷ qs) h = elim (Bool-cases (text_eq k q.0)) [
    | inl e ↦ ground (arith, weight-append q.1 (queued qs), weight-append rest (queued qs))
    | inr n ↦ ground (
      arith,
      weight-popped k i rest qs,
      weight-append q.1 (queued qs),
      weight-append q.1 (queued (set_queue k rest qs)),
    )
  ]

  pub weight-cleared :
      (k : Text) (qs : Queues)
      → weight (queued (set_queue k [] qs)) + weight (queue k qs) ≡ weight (queued qs)
  unfolding weight queue set_queue queued
  weight-cleared k [] = refl
  weight-cleared k (q ∷ qs) = ground (
    arith,
    weight-cleared k qs,
    weight-append q.1 (queued qs),
    weight-append q.1 (queued (set_queue k [] qs)),
  )

pub length-weight : (xs : List ℕ) → length xs ≡ weight (λ _. 1) xs
unfolding weight
length-weight [] = refl
length-weight (x ∷ xs) = omega (arith, length-weight xs)

-- What holds of every queue, and of its rest when the first is taken.
abbrev pub AllQueues : (Text → ℕ → Type 0) → Queues → Type 0
AllQueues P [] = Unit {0}
AllQueues P (q ∷ qs) = All (P q.0) q.1 × AllQueues P qs

module _ (P : Text → ℕ → Type 0) where
  pub AllQueues-queue : (k : Text) (qs : Queues) → AllQueues P qs → All (P k) (queue k qs)
  unfolding queue
  AllQueues-queue k [] h = tt
  AllQueues-queue k (q ∷ qs) h = elim (Bool-cases (text_eq k q.0)) [
    | inl e ↦ rw e (rw ((text_eq_iff k q.0).0 e) h.0)
    | inr n ↦ rw n (AllQueues-queue k qs h.1)
  ]

  pub AllQueues-set_queue :
      (k : Text) (xs : List ℕ) (qs : Queues)
      → AllQueues P qs
      → All (P k) xs
      → AllQueues P (set_queue k xs qs)
  unfolding set_queue
  AllQueues-set_queue k xs [] h hx = tt
  AllQueues-set_queue k xs (q ∷ qs) h hx = elim (Bool-cases (text_eq k q.0)) [
    | inl e ↦ rw e (rw (← (text_eq_iff k q.0).0 e) hx, h.1)
    | inr n ↦ rw n (h.0, AllQueues-set_queue k xs qs h.1 hx)
  ]

pub keys-set_queue : (k : Text) (xs : List ℕ) (qs : Queues) → keys (set_queue k xs qs) ≡ keys qs
unfolding set_queue
keys-set_queue k xs [] = refl
keys-set_queue k xs (q ∷ qs) = elim (Bool-cases (text_eq k q.0)) [
  | inl e ↦ rw e refl
  | inr n ↦ rw n (ap (λ ks. q.0 ∷ ks) (keys-set_queue k xs qs))
]
