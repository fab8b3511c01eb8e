-- ===== src/Resolver/Cache/Sweep.antt =====
-- The orphan sweep of tenants/resolver/cache.py. A scan is taken of the store as it is when its
-- namespace is swept; the batch size is `_SWEEP_BATCH`, a parameter of the loop.
pub mod Laws
use mt_shards_back_test.Base.{
  ℕ, ◌+◌, Bool, true, false, not, List, [], ◌∷◌, ◌++◌, map, leb, Text, codes, text_eq, elem, length,
  if◌then◌else◌,
}
use Prim.Native.Nat.{zero, suc}
use mt_shards_back_test.Resolver.Store.{Store}
use mt_shards_back_test.Resolver.Cache.{snap_key, schema_snap_key, is_positive}

abbrev pub drop : ℕ → Text → Text
drop n [] = []
drop zero (c ∷ t) = c ∷ t
drop (suc n) (c ∷ t) = drop n t

unfoldable pub select : (Text → Bool) → List Text → List Text
select p [] = []
select p (x ∷ xs) = let rest = select p xs in if p x then x ∷ rest else rest

-- The keys of a dict built from a list, each once.
unfoldable pub distinct : List Text → List Text
unfolding select
distinct [] = []
distinct (x ∷ xs) = x ∷ select (λ y. not (text_eq x y)) (distinct xs)

abbrev pub sweep_size : ℕ
sweep_size = 500

module _ (σ : Store) where
  open σ use {State, get, delete_many, scan}

  -- iter_snapshot_hosts and iter_snapshot_schemas
  unfoldable pub iter_snapshot_hosts : State → List Text
  iter_snapshot_hosts s = map (drop (length (codes "host-snap:"))) (scan (codes "host-snap:") s)

  unfoldable pub iter_snapshot_schemas : State → List Text
  iter_snapshot_schemas s =
      map (drop (length (codes "schema-snap:"))) (scan (codes "schema-snap:") s)

  -- The keys of a batch that hold a positive snapshot.
  unfoldable pub orphans : (Text → Text) → List Text → State → List Text
  unfolding distinct
  orphans key names s = select (λ k. is_positive (get k s)) (distinct (map key names))

  unfoldable pub delete_found : List Text → State → State
  delete_found [] s = s
  delete_found (k ∷ ks) s = delete_many (k ∷ ks) s

  unfoldable pub sweep_batch : (Text → Text) → List Text → State → ℕ × State
  unfolding orphans delete_found
  sweep_batch key [] s = (0, s)
  sweep_batch key (n ∷ names) s =
      let found = orphans key (n ∷ names) s in (length found, delete_found found s)

  abbrev pub counted : ℕ → ℕ × State → ℕ × State
  counted n (m, s) = (n + m, s)

  unfoldable pub sweep_namespace :
      ℕ → List Text → (Text → Text) → List Text → List Text → State → ℕ × State
  unfolding sweep_batch
  sweep_namespace size valid key [] batch s = sweep_batch key batch s
  sweep_namespace size valid key (name ∷ names) batch s = elim (elem name valid) [
    | true ↦ sweep_namespace size valid key names batch s
    | false ↦
        (let full = batch ++ (name ∷ []) in
          elim (leb size (length full)) [
            | true ↦
                (let (n, s') = sweep_batch key full s in
                  counted n (sweep_namespace size valid key names [] s'))
            | false ↦ sweep_namespace size valid key names full s
          ])
  ]

  unfoldable pub sweep_orphans : ℕ → List Text → List Text → State → ℕ × State
  unfolding iter_snapshot_hosts iter_snapshot_schemas sweep_namespace
  sweep_orphans size valid_hosts valid_schemas s =
      let (n, s') = sweep_namespace size valid_hosts snap_key (iter_snapshot_hosts s) [] s in
      counted n
        (sweep_namespace size valid_schemas schema_snap_key (iter_snapshot_schemas s') [] s')
