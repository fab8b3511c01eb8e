-- ===== src/Schemas/Queue/Pick.antt =====
-- pick_next: what it answers, and the order in which it looks.
use mt_shards_back_test.Base.{
  ℕ, ◌<◌, ◌≡◌, refl, ◌∙◌, Bool, true, false, ◌||◌, inl, inr, List, [], ◌∷◌, ◌++◌, Option, none,
  some, Text, text_eq, text_eq_iff, text_eq_refl, Bool-cases, &&-eq-true, arith, elem, leb, ltb,
}
use mt_shards_back_test.Schemas.Queue.{
  Counter, tally, total, Queues, keys, queue, sorted, insert, past, upto, rotated, first_free,
  free_for, pick_next, nonempty,
}

module _ (t : Text) where
  elem-append : (xs ys : List Text) → elem t (xs ++ ys) ≡ (elem t xs || elem t ys)
  unfolding elem
  elem-append [] ys = refl
  elem-append (x ∷ xs) ys = ground (arith, elem-append xs ys)

  elem-insert : (x : Text) (xs : List Text) → elem t (insert x xs) ≡ (text_eq x t || elem t xs)
  unfolding elem insert
  elem-insert x [] = refl
  elem-insert x (y ∷ ys) = ground (arith, elem-insert x ys)

  elem-sorted : (xs : List Text) → elem t (sorted xs) ≡ elem t xs
  unfolding elem sorted
  elem-sorted [] = refl
  elem-sorted (x ∷ xs) = ground (arith, elem-sorted xs, elem-insert x (sorted xs))

  elem-past : (a : Text) (xs : List Text) → (elem t (past a xs) || elem t (upto a xs)) ≡ elem t xs
  unfolding elem past upto
  elem-past a [] = refl
  elem-past a (x ∷ xs) = ground (arith, elem-past a xs)

  elem-rotated : (after : Option Text) (xs : List Text) → elem t (rotated after xs) ≡ elem t xs
  unfolding rotated
  elem-rotated none xs = refl
  elem-rotated (some a) xs = elem-append (past a xs) (upto a xs) ∙ elem-past a xs

  first_free-none :
      (free : Text → Bool) (xs : List Text)
      → first_free free xs ≡ none
      → elem t xs ≡ true
      → free t ≡ false
  unfolding first_free elem
  first_free-none free [] h m = ground arith
  first_free-none free (x ∷ xs) h m = elim (Bool-cases (text_eq x t)) [
    | inl e ↦ rw (← (text_eq_iff x t).0 e) (ground arith)
    | inr n ↦ first_free-none free xs (ground arith) (ground arith)
  ]

  pub elem-keys : (qs : Queues) → nonempty (queue t qs) ≡ true → elem t (keys qs) ≡ true
  unfolding elem queue
  elem-keys [] h = ground arith
  elem-keys (q ∷ qs) h = elim (Bool-cases (text_eq t q.0)) [
    | inl e ↦ rw ((text_eq_iff t q.0).0 e) (rw (text_eq_refl q.0) refl)
    | inr n ↦ ground (arith, elem-keys qs)
  ]

first_free-some :
    (free : Text → Bool) (t : Text) (xs : List Text) → first_free free xs ≡ some t → free t ≡ true
unfolding first_free
first_free-some free t [] h = cc
first_free-some free t (x ∷ xs) h = elim (Bool-cases (free x)) [
  | inl e ↦ ground (arith, e)
  | inr n ↦ first_free-some free t xs (ground arith)
]

module _ (queues : Queues) (inflight : Counter) (jobs per_shard : ℕ) (after : Option Text) where
  abbrev order : List Text
  unfolding sorted rotated
  order = rotated after (sorted (keys queues))

  -- A shard that is picked has a target queued and room, and the run has room.
  pub pick_next-some :
      (shard : Text)
      → pick_next queues inflight jobs per_shard after ≡ some shard
      → (total inflight < jobs)
        × (nonempty (queue shard queues) ≡ true)
        × (tally shard inflight < per_shard)
  unfolding pick_next free_for
  pick_next-some shard h = elim (Bool-cases (leb jobs (total inflight))) [
    | inl e ↦ ground (arith)
    | inr n ↦
        let f =
          &&-eq-true (nonempty (queue shard queues)) (ltb (tally shard inflight) per_shard)
            (first_free-some (free_for queues inflight per_shard) shard order (ground arith)) in
        (ground arith, f.0, ground arith)
  ]

  -- Where none is picked though the run has room, each shard with a queue is full.
  pub pick_next-none :
      (shard : Text)
      → pick_next queues inflight jobs per_shard after ≡ none
      → total inflight < jobs
      → tally shard inflight < per_shard
      → nonempty (queue shard queues) ≡ false
  unfolding pick_next free_for
  pick_next-none shard h room free = elim (Bool-cases (nonempty (queue shard queues))) [
    | inl e ↦
        let m =
          elem-rotated shard after (sorted (keys queues))
          ∙ elem-sorted shard (keys queues)
          ∙ elem-keys shard queues e in
        ground
          (arith, first_free-none shard (free_for queues inflight per_shard) order (ground arith) m)
    | inr n ↦ n
  ]
