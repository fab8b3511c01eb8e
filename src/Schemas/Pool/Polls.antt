-- ===== src/Schemas/Pool/Polls.antt =====
-- migrate_schemas.py: the waits of `_run_parallel`, which poll: a wait of _POLL_SECS may time out
-- with nothing found, and the loop goes round again.
use mt_shards_back_test.Base.{ℕ, ◌+◌, ◌<◌, ◌≡◌, true, Option, some, List, ◌∷◌, ◌⊎◌, Text, is_some}
use mt_shards_back_test.Schemas.Pool.{Pool, World, run_parallel}
use mt_shards_back_test.Schemas.Pool.Ends.{waiting, in_pool, finds}

-- Each future ends: as long as the dict stays the same, some later wait on it finds one of its
-- futures done, or the pool broken. The waits before that may time out.
abbrev pub Fair : World → Type 0
Fair world =
    (k i : ℕ) (is : List ℕ) → (n : ℕ) × (finds (i ∷ is) (world.wait (n + k) (i ∷ is)) ≡ true)

module _ (home : ℕ → Option Text) (jobs per_shard : ℕ) (some_job : 0 < jobs)
    (some_room : 0 < per_shard) (world : World) where
  -- The loop ends from its k-th turn on, with enough fuel.
  abbrev Ending : ℕ → Pool → Type 0
  Ending k p =
      (fuel : ℕ) × (q : Pool) × (run_parallel world jobs per_shard fuel k p ≡ some q)
      × (waiting q ≡ 0)
      × ((in_pool q ≡ 0) ⊎ (is_some q.stage.stop ≡ true))
