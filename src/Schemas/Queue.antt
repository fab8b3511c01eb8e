-- ===== src/Schemas/Queue.antt =====
-- migrate_schemas.py: pick_next, and the dict of queues and the Counters it reads. A queue holds
-- the addresses of entries. A Counter counts from 0, so an `inflight` below 0 is not told from 0.

pub mod Laws
pub mod Pick
pub mod Distinct
use mt_shards_back_test.Base.{
  ℕ, suc, ◌+◌, Bool, true, false, not, ◌&&◌, Option, none, some, List, [], ◌∷◌, ◌++◌, Text, text_eq,
  ltb, leb, ◌==◌, if◌then◌else◌,
}

abbrev pub Counter : Type 0
Counter = List (Text × ℕ)

unfoldable pub tally : Text → Counter → ℕ
tally k [] = 0
tally k (c ∷ cs) = let rest = tally k cs in if text_eq k c.0 then c.1 else rest

unfoldable pub set_tally : Text → ℕ → Counter → Counter
set_tally k v [] = (k, v) ∷ []
set_tally k v (c ∷ cs) =
    let rest = set_tally k v cs in if text_eq k c.0 then (c.0, v) ∷ cs else c ∷ rest

-- sum(counter.values())
unfoldable pub total : Counter → ℕ
total [] = 0
total (c ∷ cs) = c.1 + total cs

abbrev pub Queues : Type 0
Queues = List (Text × List ℕ)

-- Iterating over the dict.
abbrev pub keys : Queues → List Text
keys [] = []
keys (q ∷ qs) = q.0 ∷ keys qs

-- `queues[shard]`; a shard without a queue is read as one whose queue is empty.
unfoldable pub queue : Text → Queues → List ℕ
queue k [] = []
queue k (q ∷ qs) = let rest = queue k qs in if text_eq k q.0 then q.1 else rest

-- The addresses that are queued, queue by queue.
unfoldable pub queued : Queues → List ℕ
queued [] = []
queued (q ∷ qs) = q.1 ++ queued qs

unfoldable pub set_queue : Text → List ℕ → Queues → Queues
set_queue k xs [] = []
set_queue k xs (q ∷ qs) =
    let rest = set_queue k xs qs in if text_eq k q.0 then (q.0, xs) ∷ qs else q ∷ rest

-- `queues.setdefault(shard, deque()).append(e)`
unfoldable pub append_to : Text → ℕ → Queues → Queues
append_to k i [] = (k, i ∷ []) ∷ []
append_to k i (q ∷ qs) =
    let rest = append_to k i qs in if text_eq k q.0 then (q.0, q.1 ++ i ∷ []) ∷ qs else q ∷ rest

-- The order of `sorted` on texts: by code points.
unfoldable pub text_leb : Text → Text → Bool
text_leb [] t = true
text_leb (c ∷ s) [] = false
text_leb (c ∷ s) (d ∷ t) = if c == d then text_leb s t else ltb c d

unfoldable pub insert : Text → List Text → List Text
unfolding text_leb
insert t [] = t ∷ []
insert t (x ∷ xs) = let rest = insert t xs in if text_leb t x then t ∷ x ∷ xs else x ∷ rest

unfoldable pub sorted : List Text → List Text
unfolding insert
sorted [] = []
sorted (x ∷ xs) = insert x (sorted xs)

-- `order[i:]` and `order[:i]` where i is one past the position of `after`.
unfoldable pub past : Text → List Text → List Text
past a [] = []
past a (x ∷ xs) = let rest = past a xs in if text_eq a x then xs else rest

unfoldable pub upto : Text → List Text → List Text
upto a [] = []
upto a (x ∷ xs) = let rest = upto a xs in if text_eq a x then x ∷ [] else x ∷ rest

-- An `after` that is no shard of the order leaves it as it is.
unfoldable pub rotated : Option Text → List Text → List Text
unfolding past upto
rotated none order = order
rotated (some a) order = past a order ++ upto a order

unfoldable pub first_free : (Text → Bool) → List Text → Option Text
first_free free [] = none
first_free free (x ∷ xs) = let rest = first_free free xs in if free x then some x else rest

abbrev pub nonempty : List ℕ → Bool
nonempty [] = false
nonempty (x ∷ xs) = true

-- The test of the loop over `order`.
unfoldable pub free_for : Queues → Counter → ℕ → Text → Bool
unfolding queue tally
free_for queues inflight per_shard shard =
    nonempty (queue shard queues) && ltb (tally shard inflight) per_shard

unfoldable pub pick_next : Queues → Counter → ℕ → ℕ → Option Text → Option Text
unfolding total sorted rotated first_free free_for
pick_next queues inflight jobs per_shard after =
    if leb jobs (total inflight)
    then none
    else first_free (free_for queues inflight per_shard) (rotated after (sorted (keys queues)))
